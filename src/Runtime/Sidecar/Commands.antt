-- ===== src/Runtime/Sidecar/Commands.antt =====
-- pkg/handlers/project_authproxy.go with cmd/authproxy/exec.go: the command that the project manager
-- writes is the one that the authproxy starts.
use mathlib.Core.List.{append-nil, append_assoc}
use agentry.Base.{
  ◌≡◌, refl, sym, ap, ◌∙◌, true, false, ◌&&◌, List, [], ◌∷◌, ◌++◌, arith, ◌==◌, Bool-cases, inl,
  inr, Text, codes, is_empty, contains_byte, join, not, ◌||◌, Bool, is_space, ends_printed, ℕ,
}
use agentry.Runtime.Sidecar.{
  quote, space, without_quotes, exec_part, exec_parts, join_authproxy_exec, end_word, split_from,
  split_argv,
}

without_quotes-contains_byte : (a : Text) → contains_byte (without_quotes a) quote ≡ false
unfolding without_quotes contains_byte
without_quotes-contains_byte [] = refl
without_quotes-contains_byte (c ∷ s) = elim (Bool-cases (c == quote)) [
  | inl cut ↦ rw (cut, without_quotes) (without_quotes-contains_byte s)
  | inr other ↦ ground (arith, other, without_quotes-contains_byte s)
]

-- A stretch without quotes is read into the current word, in quotes or without a space.
split_from-quoted :
    (cur w rest : Text)
    → contains_byte w quote ≡ false
    → split_from true cur (w ++ rest) ≡ split_from true (cur ++ w) rest
unfolding split_from contains_byte
split_from-quoted cur [] rest h = ap (λ c. split_from true c rest) (sym (append-nil cur))
split_from-quoted cur (c ∷ w) rest h =
    let other : (c == quote) ≡ false = ground (arith, h) in
    let inside : (c == space && false) ≡ false = ground arith in
    rw (other, inside, split_from)
      (split_from-quoted (cur ++ c ∷ []) w rest (ground (arith, h))
        ∙ ap (λ t. split_from true t rest) (append_assoc cur (c ∷ []) w))

split_from-bare :
    (cur w rest : Text)
    → contains_byte w quote ≡ false
    → contains_byte w space ≡ false
    → split_from false cur (w ++ rest) ≡ split_from false (cur ++ w) rest
unfolding split_from contains_byte
split_from-bare cur [] rest h k = ap (λ c. split_from false c rest) (sym (append-nil cur))
split_from-bare cur (c ∷ w) rest h k =
    let other : (c == quote) ≡ false = ground (arith, h) in
    let letter : (c == space && true) ≡ false = ground (arith, k) in
    rw (other, letter, split_from)
      (split_from-bare (cur ++ c ∷ []) w rest (ground (arith, h)) (ground (arith, k))
        ∙ ap (λ t. split_from false t rest) (append_assoc cur (c ∷ []) w))

split_from-exec_part :
    (a rest : Text)
    → split_from false [] (exec_part a ++ rest) ≡ split_from false (without_quotes a) rest
unfolding exec_part
split_from-exec_part a rest =
    let bare = without_quotes a in
    let clean = without_quotes-contains_byte a in
    elim (Bool-cases (contains_byte bare space)) [
      | inr plain ↦ rw (plain, exec_part) (split_from-bare [] bare rest clean plain)
      | inl spaced ↦
          rw (spaced, exec_part)
            (open_quote ((bare ++ quote ∷ []) ++ rest)
              ∙ ap (λ t. split_from true [] t) (append_assoc bare (quote ∷ []) rest)
              ∙ split_from-quoted [] bare (quote ∷ rest) clean
              ∙ close_quote bare rest)
    ]
  where
    open_quote : (s : Text) → split_from false [] (quote ∷ s) ≡ split_from true [] s
    open_quote s = unfold split_from in refl

    close_quote : (cur s : Text) → split_from true cur (quote ∷ s) ≡ split_from false cur s
    close_quote cur s = unfold split_from in refl

-- The words of a command that are left, without their quotes.
abbrev pub words_of : List Text → List Text
words_of [] = []
words_of (a ∷ argv) = end_word (without_quotes a) (words_of argv)

split_from-join :
    (argv : List Text) → split_from false [] (join (codes " ") (exec_parts argv)) ≡ words_of argv
unfolding exec_parts join
split_from-join [] = unfold split_from in refl
split_from-join (a ∷ []) =
    ap (split_from false []) (sym (append-nil (exec_part a)))
    ∙ split_from-exec_part a []
    ∙ (unfold split_from in refl)
split_from-join (a ∷ b ∷ argv) =
    let rest : Text = join (codes " ") (exec_parts (b ∷ argv)) in
    split_from-exec_part a (space ∷ rest)
    ∙ next_word (without_quotes a) rest
    ∙ ap (end_word (without_quotes a)) (split_from-join (b ∷ argv))
  where
    next_word :
        (cur s : Text) → split_from false cur (space ∷ s) ≡ end_word cur (split_from false [] s)
    next_word cur s = unfold split_from in refl

abbrev pub IsPlain : Text → Type 0
IsPlain a = (is_empty a ≡ false) × (contains_byte a quote ≡ false)

pub split_argv-join_authproxy_exec :
    (argv : List Text) → split_argv (join_authproxy_exec argv) ≡ words_of argv
unfolding split_argv join_authproxy_exec
split_argv-join_authproxy_exec argv = split_from-join argv

-- No white space other than the space.
abbrev pub only_spaces : Text → Bool
only_spaces [] = true
only_spaces (c ∷ s) = (c == space || not (is_space c)) && only_spaces s

-- A word that survives: not empty, without quotes, and with no white space other than the space.
abbrev pub IsWord : Text → Type 0
IsWord a = (is_empty a ≡ false) × (contains_byte a quote ≡ false) × (only_spaces a ≡ true)

-- A word as it is written starts and ends with no white space.
record Printed (t : Text) : Type 0 where
  first : ℕ
  rest : Text
  same : t ≡ first ∷ rest
  starts : is_space first ≡ false
  ends : ends_printed t ≡ true
