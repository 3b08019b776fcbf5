-- ===== src/RestoreConfig/Examples.antt =====
-- A restore to a folder.
use k8up.Prelude.{String, ◌≡◌, refl, true, some}
use k8up.RestoreConfig.{RestoreSettings, validate_restore, missing_dir}

abbrev lower : String → String
lower s = "folder"

abbrev settings : RestoreSettings
settings = record {
  do_restore = true;
  restore_type = "Folder";
  restore_dir = "/restore";
  restore_s3_endpoint = "";
  restore_s3_access_key = "";
  restore_s3_secret_key = "";
}

missing_run : (validate_restore lower (record settings { restore_dir = "" })).0 ≡ some missing_dir
unfolding validate_restore
missing_run = refl
