-- ===== src/RestoreConfig.antt =====
-- The validation of a restore's configuration (restic/cfg/config.go). `to_lower` is strings.ToLower,
-- as any function.
pub mod Checked
mod Examples
use k8up.Prelude.{String, Bool, true, false, not, Option, none, some, str_eq, if◌then◌else◌}

pub record RestoreSettings : Type 0 where
  pub do_restore : Bool
  pub restore_type : String
  pub restore_dir : String
  pub restore_s3_endpoint : String
  pub restore_s3_access_key : String
  pub restore_s3_secret_key : String

pub data RestoreError : Type 0 where
  missing_endpoint missing_access_key missing_secret_key missing_dir unknown_type : RestoreError

abbrev pub check_s3 : RestoreSettings → Option RestoreError
check_s3 c =
    if str_eq c.restore_s3_endpoint ""
    then some missing_endpoint
    else if str_eq c.restore_s3_access_key ""
    then some missing_access_key
    else if str_eq c.restore_s3_secret_key ""
    then some missing_secret_key
    else none

abbrev pub check_type : RestoreSettings → Option RestoreError
check_type c =
    if str_eq c.restore_type "s3"
    then check_s3 c
    else if str_eq c.restore_type "folder"
    then (if str_eq c.restore_dir "" then some missing_dir else none)
    else some unknown_type

-- The error, if any, and the configuration, of which the restore type has been changed.
unfoldable pub validate_restore :
    (String → String) → RestoreSettings → Option RestoreError × RestoreSettings
validate_restore to_lower c =
    let lowered = record c { restore_type = to_lower c.restore_type } in
    if not c.do_restore then (none, c) else (check_type lowered, lowered)
