-- ===== src/Runtime/Guard.antt =====
-- pkg/handlers/common.go: the paths that the file handlers refuse.
use agentry.Base.{
  Bool, false, ◌||◌, ◌++◌, if◌then◌else◌, Text, codes, is_empty, str_eq, has_prefix, clean,
}

abbrev pub creds_mount_path : Text
creds_mount_path = codes "/etc/sandbox/creds"

unfoldable pub is_protected_read_path : Text → Bool
is_protected_read_path p =
    let path = clean p in
    if is_empty p
    then false
    else str_eq path creds_mount_path || has_prefix path (creds_mount_path ++ codes "/")
