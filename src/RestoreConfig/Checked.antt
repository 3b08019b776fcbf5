-- ===== src/RestoreConfig/Checked.antt =====
-- What the validation of a restore accepts.
use k8up.Prelude.{
  String, ◌≡◌, refl, Bool, true, false, not, ◌&&◌, ◌||◌, is_some, str_eq, eq_iff, if◌then◌else◌,
  arith,
}
use k8up.RestoreConfig.{RestoreSettings, validate_restore}

-- A restore to S3 with its endpoint and keys, or to a folder with its directory.
abbrev pub is_complete : RestoreSettings → Bool
is_complete c =
    str_eq c.restore_type "s3"
      && not (str_eq c.restore_s3_endpoint "")
      && not (str_eq c.restore_s3_access_key "")
      && not (str_eq c.restore_s3_secret_key "")
    || str_eq c.restore_type "folder" && not (str_eq c.restore_dir "")

not_both : (s : String) → str_eq s "s3" ≡ true → str_eq s "folder" ≡ false
not_both s h = rw ((eq_iff s "s3").0 h) refl

-- validateRestore accepts a configuration exactly if no restore is asked for, or with its type in
-- lower case it is a restore to S3 with an endpoint and both keys, or to a folder with a directory.
-- A configuration that it accepts where a restore is asked for has its type in lower case.
pub validate_restore_lem :
    (to_lower : String → String) (c : RestoreSettings)
    → let (error, c') = validate_restore to_lower c in
      (not (is_some error)
        ≡ (not c.do_restore || is_complete (record c { restore_type = to_lower c.restore_type })))
      × (c'.restore_type ≡ (if c.do_restore then to_lower c.restore_type else c.restore_type))
unfolding validate_restore
validate_restore_lem to_lower c = (ground (arith, not_both (to_lower c.restore_type)), ground arith)
