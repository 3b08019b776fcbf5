-- ===== src/JobObject.antt =====
-- The objects that K8up runs as jobs (api/v1/job_object.go, common_types.go), with the metadata that
-- the operator reads. A creation timestamp is a number, and a larger one is later.
pub mod Order
use k8up.Prelude.{
  ◌≡◌, refl, ap, Bool-cases, inl, inr, true, none, some, eq_iff, eq_refl, ℕ, String, Bool, Option,
  List, ltb, ◌==◌, str_eq, str_lt, if◌then◌else◌,
}
use k8up.Prelude.Int.{ℤ}
use k8up.Status.{Status}

-- The constants of the Go string type `JobType`.
pub data JobType : Type 0 where
  backup_type check_type archive_type restore_type prune_type schedule_type : JobType

abbrev pub job_type_string : JobType → String
job_type_string backup_type = "backup"
job_type_string check_type = "check"
job_type_string archive_type = "archive"
job_type_string restore_type = "restore"
job_type_string prune_type = "prune"
job_type_string schedule_type = "schedule"

abbrev pub same_type : JobType → JobType → Bool
same_type a b = str_eq (job_type_string a) (job_type_string b)

-- The job type of a text, so that no two types have one text.
abbrev type_of : String → Option JobType
type_of s =
    if str_eq s "backup"
    then some backup_type
    else if str_eq s "check"
    then some check_type
    else if str_eq s "archive"
    then some archive_type
    else if str_eq s "restore"
    then some restore_type
    else if str_eq s "prune"
    then some prune_type
    else if str_eq s "schedule"
    then some schedule_type
    else none

type_of-job_type_string : (t : JobType) → type_of (job_type_string t) ≡ some t
type_of-job_type_string backup_type = refl
type_of-job_type_string check_type = refl
type_of-job_type_string archive_type = refl
type_of-job_type_string restore_type = refl
type_of-job_type_string prune_type = refl
type_of-job_type_string schedule_type = refl

pub job_type_string_injective : (t u : JobType) → job_type_string t ≡ job_type_string u → t ≡ u
job_type_string_injective t u e =
    cc (type_of-job_type_string t, type_of-job_type_string u, ap type_of e)

pub same_type_refl : (t : JobType) → same_type t t ≡ true
same_type_refl t = eq_refl (job_type_string t)

pub same_type_eq : (t u : JobType) → same_type t u ≡ true → t ≡ u
same_type_eq t u h =
    job_type_string_injective t u ((eq_iff (job_type_string t) (job_type_string u)).0 h)

pub same_type_sym : (t u : JobType) → same_type t u ≡ same_type u t
same_type_sym t u = elim (Bool-cases (same_type t u)) [
  | inl e ↦ rw (same_type_eq t u e) refl
  | inr e ↦ elim (Bool-cases (same_type u t)) [
    | inl e' ↦ rw (same_type_eq u t e') refl
    | inr e' ↦ cc (e, e')
  ]
]

-- A type that is one of two equal types is the other.
pub same_type_trans :
    (a k t : JobType)
    → (same_type a k ≡ true → same_type k t ≡ same_type a t)
      × (same_type k t ≡ true → same_type a k ≡ same_type a t)
same_type_trans a k t = (λ e. rw (same_type_eq a k e), λ e. rw (same_type_eq k t e))

-- metav1.OwnerReference
pub record OwnerReference : Type 0 where
  pub kind : String
  pub api_version : String
  pub uid : String
  pub controller : Bool

pub record JobObject : Type 0 where
  pub name : String
  pub namespace : String
  pub job_type : JobType
  pub created : ℕ
  pub labels : List (String × String)
  pub owners : List OwnerReference
  pub status : Status
  -- GetFailedJobsHistoryLimit and GetSuccessfulJobsHistoryLimit read these three of the spec.
  pub keep_jobs : Option ℤ
  pub failed_limit : Option ℤ
  pub successful_limit : Option ℤ

-- JobObjectList.Less
unfoldable pub less : JobObject → JobObject → Bool
less a b = if a.created == b.created then str_lt a.name b.name else ltb a.created b.created
