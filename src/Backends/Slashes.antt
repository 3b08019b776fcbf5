-- ===== src/Backends/Slashes.antt =====
-- Slashes at the end of the endpoint of an S3 repository (api/v1/backend.go, operator/cfg/config.go).
use Prim.Native.Char.{Char, code}
use Prim.Native.String
use text.Mathlib.TextLemmas.{append_cancel_left, append_cancel_right, cons-append, cons≢nil}
use k8up.Prelude.{
  String, ◌≡◌, refl, ◌↔◌, none, some, str_eq, eq_iff, false, ◌&&◌, ◌==◌, inr, inl, Bool-cases,
}
use k8up.Backends.{
  S3Spec, Backend, Configuration, s3_string, trim_right_slash, repository_of, backend_string,
  get_supported_backends, first_backend, get_global_repository,
}

pub trim_right_slash-append :
    (s : String) → trim_right_slash (String.◌++◌ s "/") ≡ trim_right_slash s
unfolding trim_right_slash
trim_right_slash-append String.[] = refl
trim_right_slash-append (String.◌∷◌ c s) = rw (cons-append c s "/", trim_right_slash-append s) refl

pub trim_right_slash_idem :
    (s : String) → trim_right_slash (trim_right_slash s) ≡ trim_right_slash s
unfolding trim_right_slash
trim_right_slash_idem String.[] = refl
trim_right_slash_idem (String.◌∷◌ c s) =
    elim (Bool-cases (str_eq (trim_right_slash s) "" && (code c == b'/'))) [
      | inl e ↦ rw e refl
      | inr e ↦ rw (e, trim_right_slash_idem s, e) refl
    ]

cons_not_empty : (c : Char) (s : String) → str_eq (String.◌∷◌ c s) "" ≡ false
cons_not_empty c s = elim (Bool-cases (str_eq (String.◌∷◌ c s) "")) [
  | inl e ↦ absurd (cons≢nil ((eq_iff (String.◌∷◌ c s) "").0 e))
  | inr e ↦ e
]

not_empty : (s : String) → str_eq (String.◌++◌ s "/") "" ≡ false
not_empty String.[] = refl
not_empty (String.◌∷◌ c s) = rw (cons-append c s "/") (cons_not_empty c _)

-- A slash more at the end of an endpoint that is given does not make it another repository.
pub s3_string-slash :
    (c : Configuration) (b : S3Spec)
    → str_eq b.endpoint "" ≡ false
    → s3_string c (record b { endpoint = String.◌++◌ b.endpoint "/" }) ≡ s3_string c b
unfolding s3_string
s3_string-slash c b h = rw (not_empty b.endpoint, h, trim_right_slash-append b.endpoint) refl

abbrev pub no_backend : Backend
no_backend = record {
  repo_password = none;
  azure = none;
  b2 = none;
  gcs = none;
  local = none;
  rest = none;
  s3 = none;
  swift = none;
}

abbrev pub default_s3 : Backend
default_s3 = record no_backend {
  s3 = some (record { endpoint = ""; bucket = ""; access_key_id = none; secret_access_key = none });
}

-- An object without a backend and one whose S3 backend leaves everything to the global settings have
-- the same repository string exactly if trimming the
-- slashes at its end leaves the global endpoint as it is.
pub global_repository_agrees :
    (c : Configuration)
    → (repository_of c (some default_s3) ≡ repository_of c none)
      ↔ (trim_right_slash c.s3_endpoint ≡ c.s3_endpoint)
unfolding repository_of backend_string get_supported_backends first_backend s3_string
    get_global_repository
global_repository_agrees c =
    (λ e. append_cancel_right _ _ _ (append_cancel_left "s3:" _ _ e), λ e. rw e refl)
