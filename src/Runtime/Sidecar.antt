-- ===== src/Runtime/Sidecar.antt =====
-- pkg/handlers/project_authproxy.go: the command of a project put behind the authproxy, and
-- cmd/authproxy/exec.go: the command taken apart again.
pub mod Commands
use agentry.Base.{
  ℕ, ◌≡◌, Bool, true, false, not, ◌&&◌, ◌||◌, Option, none, some, List, [], ◌∷◌, ◌++◌, ◌==◌,
  if◌then◌else◌, Text, codes, is_empty, str_eq, has_prefix, contains_byte, to_lower, trim_prefix,
  trim_space, join, Result, ok, err,
}

abbrev pub quote : ℕ
quote = 34

abbrev pub space : ℕ
space = 32

-- `strings.ReplaceAll(a, "\"", "")`
unfoldable pub without_quotes : Text → Text
without_quotes [] = []
without_quotes (c ∷ s) = let rest = without_quotes s in if c == quote then rest else c ∷ rest

unfoldable pub exec_part : Text → Text
unfolding without_quotes
exec_part a =
    let bare = without_quotes a in
    if contains_byte bare space then quote ∷ (bare ++ quote ∷ []) else bare

unfoldable pub exec_parts : List Text → List Text
exec_parts [] = []
exec_parts (a ∷ argv) = exec_part a ∷ exec_parts argv

unfoldable pub join_authproxy_exec : List Text → Text
join_authproxy_exec argv = join (codes " ") (exec_parts argv)

-- The first entry for the key decides.
unfoldable pub auth_enabled_in_env : List Text → Bool
auth_enabled_in_env [] = false
auth_enabled_in_env (kv ∷ env) =
    let rest = auth_enabled_in_env env in
    let v = to_lower (trim_prefix kv (codes "AGENTRY_AUTH_ENABLED=")) in
    if has_prefix kv (codes "AGENTRY_AUTH_ENABLED=")
    then str_eq v (codes "true") || (str_eq v (codes "1") || str_eq v (codes "yes"))
    else rest

-- `prefix` is the key with its equals sign.
unfoldable pub set_env_key : Text → Text → List Text → List Text
set_env_key prefix value [] = (prefix ++ value) ∷ []
set_env_key prefix value (kv ∷ env) =
    let rest = set_env_key prefix value env in
    if has_prefix kv prefix then (prefix ++ value) ∷ env else kv ∷ rest

abbrev pub authproxy_binary : Text
authproxy_binary = codes "/usr/local/bin/authproxy"

abbrev pub exec_key : Text
exec_key = codes "AGENTRY_AUTHPROXY_EXEC="

-- What is started: the command, its arguments, the environment, and the port of the app when the
-- authproxy stands in front of it, else zero.
pub record Launch : Type 0 where
  pub command : Text
  pub args : List Text
  pub env : List Text
  pub internal_port : ℕ

-- A command is its first word and the rest; `installed` tells whether the binary is there.
unfoldable pub maybe_wrap_auth_sidecar : Bool → Text → List Text → List Text → Launch
unfolding auth_enabled_in_env set_env_key
maybe_wrap_auth_sidecar installed cmd args env =
    if auth_enabled_in_env env && installed
    then record {
      command = authproxy_binary;
      args = [];
      env = set_env_key exec_key (join_authproxy_exec (cmd ∷ args)) env;
      internal_port = 3001;
    }
    else record { command = cmd; args = args; env = env; internal_port = 0 }

unfoldable pub drop_port : ℕ → List ℕ → List ℕ
drop_port internal [] = []
drop_port internal (p ∷ ports) =
    let rest = drop_port internal ports in if p == internal then rest else p ∷ rest

unfoldable pub filter_internal_port : List ℕ → ℕ → List ℕ
unfolding drop_port
filter_internal_port ports internal = if internal == 0 then ports else drop_port internal ports

-- The word that is being read, if it has a byte.
abbrev pub end_word : Text → List Text → List Text
end_word [] rest = rest
end_word (c ∷ s) rest = (c ∷ s) ∷ rest

-- The loop of splitArgv, `cur` being the current word so far.
unfoldable pub split_from : Bool → Text → Text → List Text
split_from in_quote cur [] = end_word cur []
split_from in_quote cur (c ∷ s) = elim (c == quote) [
  | true ↦ split_from (not in_quote) cur s
  | false ↦ elim (c == space && not in_quote) [
    | true ↦ end_word cur (split_from in_quote [] s)
    | false ↦ split_from in_quote (cur ++ c ∷ []) s
  ]
]

unfoldable pub split_argv : Text → List Text
unfolding split_from
split_argv s = split_from false [] s

-- startChild's reading of its variable
unfoldable pub child_argv : Text → Result (List Text)
child_argv value =
    let raw = trim_space value in
    if is_empty raw then err (codes "AGENTRY_AUTHPROXY_EXEC is empty") else elim (split_argv raw) [
      | [] ↦ err (codes "AGENTRY_AUTHPROXY_EXEC parsed to zero args")
      | a ∷ argv ↦ ok (a ∷ argv)
    ]
