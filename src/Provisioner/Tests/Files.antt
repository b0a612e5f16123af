-- ===== src/Provisioner/Tests/Files.antt =====
-- A lockfile written and read at a concrete input, with a runtime that is one file and a codec that
-- writes each text with its length.
use agentry.Base.{
  ℕ, zero, suc, ◌≡◌, refl, Bool, true, false, Option, none, some, List, [], ◌∷◌, ◌++◌, arith, Text,
  codes, str_eq, length, take, drop, Result, ok, err, ap, ◌==◌, if◌then◌else◌, utf8_from, is_empty,
  contains_byte,
}
use agentry.Provisioner.Backend.{Backend}
use agentry.Provisioner.Lockfile.{
  LockedBinding, LockedSkill, Lockfile, FileApi, Codec, has_runtime, read_lockfile, lock_or_new,
  with_binding, without_service, record_binding_in_lockfile, find_existing_binding,
}
use agentry.Provisioner.Lockfile.Records.{
  KeepsFiles, entries_of, record_binding_in_lockfile-find_existing_binding,
}

record Coded (A : Type 0) : Type 0 where
  put : A → Text
  get : Text → A × Text

record Both (A B : Type 0) : Type 0 where
  one : A
  other : B

abbrev get_number : Text → ℕ × Text
get_number [] = (0, [])
get_number (n ∷ s) = (n, s)

abbrev number : Coded ℕ
number = record { put = λ n. n ∷ []; get = get_number }

abbrev get_text : Text → Text × Text
get_text [] = ([], [])
get_text (n ∷ s) = (take n s, drop n s)

abbrev text : Coded Text
text = record { put = λ s. length s ∷ s; get = get_text }

module _ {A B : Type 0} (a : Coded A) (b : Coded B) where
  abbrev both : Coded (Both A B)
  both = record {
    put = λ p. a.put p.one ++ b.put p.other;
    get = λ s. (record { one = (a.get s).0; other = (b.get (a.get s).1).0 }, (b.get (a.get s).1).1);
  }

module _ {A : Type 0} (a : Coded A) where
  abbrev put_all : List A → Text
  put_all [] = []
  put_all (x ∷ xs) = a.put x ++ put_all xs

  abbrev get_many : ℕ → Text → List A × Text
  get_many zero s = ([], s)
  get_many (suc n) s = let rest = get_many n (a.get s).1 in ((a.get s).0 ∷ rest.0, rest.1)

  abbrev get_list : Text → List A × Text
  get_list [] = ([], [])
  get_list (n ∷ s) = get_many n s

  abbrev many : Coded (List A)
  many = record { put = λ xs. length xs ∷ put_all xs; get = get_list }

module _ {A B : Type 0} (a : Coded A) (to : A → B) (from : B → A) where
  abbrev via : Coded B
  via = record { put = λ b. a.put (from b); get = λ s. (to (a.get s).0, (a.get s).1) }

abbrev binding : Coded LockedBinding
binding =
    via (both (both text text) (both (many text) text))
      (λ p. record {
        service = p.one.one;
        version = p.one.other;
        env_vars = p.other.one;
        resolved_at = p.other.other;
      })
      (λ b. record {
        one = record { one = b.service; other = b.version };
        other = record { one = b.env_vars; other = b.resolved_at };
      })

abbrev skill : Coded LockedSkill
skill =
    via (both text (both text text))
      (λ p. record { name = p.one; version = p.other.one; resolved_at = p.other.other })
      (λ s. record { one = s.name; other = record { one = s.version; other = s.resolved_at } })

abbrev lockfile : Coded Lockfile
lockfile =
    via (both (both number text) (both (many binding) (both (many text) (many skill))))
      (λ p. record {
        version = p.one.one;
        cluster = p.one.other;
        bindings = p.other.one;
        secrets = p.other.other.one;
        skills = p.other.other.other;
      })
      (λ l. record {
        one = record { one = l.version; other = l.cluster };
        other = record { one = l.bindings; other = record { one = l.secrets; other = l.skills } };
      })

abbrev codec : Codec
codec = record {
  data_content = λ raw. some raw;
  top_content = λ raw. none;
  decode = λ s. some (lockfile.get s).0;
  encode = lockfile.put;
}

-- A runtime as the content of its one file.
abbrev backend : Backend Text
backend = record {
  create_pod = λ spec w. (none, w);
  delete_pod = λ name grace w. (none, w);
  get_pod_phase = λ name w. codes "Running";
  create_service = λ spec w. (none, w);
  delete_service = λ name w. (none, w);
  get_node_port = λ name w. ok 30_000;
  list_sandboxes = λ w. ok [];
  exec_in_pod = λ name command w. (ok [], w);
  get_pod_annotations = λ name w. ok [];
  set_pod_annotations = λ name annotations w. (none, w);
}

-- A text without the line feed at its end.
abbrev without_line_feed : Text → Text
without_line_feed [] = []
without_line_feed (c ∷ []) = if c == 10 then [] else c ∷ []
without_line_feed (c ∷ d ∷ s) = c ∷ without_line_feed (d ∷ s)

without_line_feed-append : (s : Text) → without_line_feed (s ++ 10 ∷ []) ≡ s
without_line_feed-append [] = refl
without_line_feed-append (c ∷ []) = refl
without_line_feed-append (c ∷ d ∷ s) = ap (λ t. c ∷ t) (without_line_feed-append (d ∷ s))

abbrev api : FileApi Text
api = record {
  read_file = λ id path w. ok (200, without_line_feed w);
  write_file = λ id path content w. (ok 200, content);
}

api-KeepsFiles : KeepsFiles backend api codec (codes "shop")
unfolding has_runtime
api-KeepsFiles = record {
  reachable = λ w. refl;
  writes = λ content w. refl;
  reads = λ text w small. (text, ap (λ t. ok (200, t)) (without_line_feed-append text), refl);
}

abbrev mail : LockedBinding
mail = record {
  service = codes "mail";
  version = codes "1";
  env_vars = codes "MAIL_KEY" ∷ [];
  resolved_at = codes "today";
}

no_lockfile : read_lockfile backend api codec (codes "shop") [] ≡ ok none
unfolding read_lockfile agentry.Provisioner.Lockfile.runtime_file_read has_runtime
    agentry.Base.is_empty
no_lockfile = refl

record_binding_in_lockfile-find_existing_binding_example :
    (w' : Text) × (record_binding_in_lockfile backend api codec (codes "c") (codes "shop") mail []
      ≡ (none, w'))
    × (find_existing_binding backend api codec (codes "shop") (codes "mail") w' ≡ some mail)
    × (entries_of (codes "mail") (with_binding mail (lock_or_new (codes "c") none)).bindings ≡ 1)
unfolding str_eq is_empty utf8_from contains_byte with_binding without_service
record_binding_in_lockfile-find_existing_binding_example =
    record_binding_in_lockfile-find_existing_binding backend api codec (codes "shop") api-KeepsFiles
      (codes "c") mail (codes "mail") [] no_lockfile refl refl
