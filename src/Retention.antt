-- ===== src/Retention.antt =====
-- The retention policy of restic: its validation (restic/cfg/config.go) and the arguments of `restic
-- forget` (restic/cli/prune.go), with the flags (restic/cli/flags.go). Where Go iterates over a map,
-- the order is an argument; time.ParseDuration is any function.
pub mod Accepted
pub mod FlagMaps
mod Examples
use k8up.Prelude.{
  ℕ, suc, String, Bool, true, false, not, Option, none, some, List, [], ◌∷◌, ◌++◌, concat, itoa,
  lookup, insert, str_eq, if◌then◌else◌,
}
use k8up.Prelude.Int.{ℤ, pos, negsuc, ltb_ℤ, leb_ℤ}

-- The suffixes of the arguments; `last` has no suffix in --keep-within.
pub data Keep : Type 0 where
  last hourly daily weekly monthly yearly : Keep

-- The fields of the configuration that the retention reads.
pub record Policy : Type 0 where
  pub do_prune : Bool
  pub keep_n : Keep → ℤ
  pub keep_within : Keep → String
  pub keep_tags : Bool
  pub hostname : String

pub data PolicyError : Type 0 where
  negative_keep invalid_duration not_positive_duration : Keep → PolicyError

-- The first loop of validatePrune.
abbrev pub check_keep_n : Policy → List Keep → Option PolicyError
check_keep_n c [] = none
check_keep_n c (k ∷ ks) =
    let rest = check_keep_n c ks in
    if ltb_ℤ (c.keep_n k) (pos 0) then some (negative_keep k) else rest

abbrev pub check_duration : Keep → Option ℤ → Option PolicyError → Option PolicyError
check_duration k none rest = some (invalid_duration k)
check_duration k (some d) rest = if leb_ℤ d (pos 0) then some (not_positive_duration k) else rest

-- The second loop of validatePrune.
abbrev pub check_keep_within : (String → Option ℤ) → Policy → List Keep → Option PolicyError
check_keep_within parse_duration c [] = none
check_keep_within parse_duration c (k ∷ ks) =
    let rest = check_keep_within parse_duration c ks in
    let value = c.keep_within k in
    if str_eq value "" then rest else check_duration k (parse_duration value) rest

abbrev pub first_error : Option PolicyError → Option PolicyError → Option PolicyError
first_error none next = next
first_error (some e) next = some e

unfoldable pub validate_prune :
    (String → Option ℤ) → List Keep → List Keep → Policy → Option PolicyError
validate_prune parse_duration order order' c =
    if not c.do_prune
    then none
    else first_error (check_keep_n c order) (check_keep_within parse_duration c order')

abbrev pub keep_flag : Keep → String
keep_flag last = "--keep-last"
keep_flag hourly = "--keep-hourly"
keep_flag daily = "--keep-daily"
keep_flag weekly = "--keep-weekly"
keep_flag monthly = "--keep-monthly"
keep_flag yearly = "--keep-yearly"

abbrev pub keep_within_flag : Keep → String
keep_within_flag last = "--keep-within"
keep_within_flag hourly = "--keep-within-hourly"
keep_within_flag daily = "--keep-within-daily"
keep_within_flag weekly = "--keep-within-weekly"
keep_within_flag monthly = "--keep-within-monthly"
keep_within_flag yearly = "--keep-within-yearly"

-- `%d`
abbrev pub print_int : ℤ → String
print_int (pos n) = itoa n
print_int (negsuc n) = concat ("-" ∷ itoa (suc n) ∷ [])

abbrev pub keep_n_args : Policy → List Keep → List String
keep_n_args c [] = []
keep_n_args c (k ∷ ks) =
    let rest = keep_n_args c ks in
    if ltb_ℤ (pos 0) (c.keep_n k) then keep_flag k ∷ print_int (c.keep_n k) ∷ rest else rest

abbrev pub keep_within_args : Policy → List Keep → List String
keep_within_args c [] = []
keep_within_args c (k ∷ ks) =
    let rest = keep_within_args c ks in
    if not (str_eq (c.keep_within k) "") then keep_within_flag k ∷ c.keep_within k ∷ rest else rest

-- Flags, in the order of iteration.
abbrev pub Flags : Type 0
Flags = List (String × List String)

abbrev pub append_to : Option (List String) → List String → List String
append_to none values = values
append_to (some current) values = current ++ values

unfoldable pub add_flag : String → List String → Flags → Flags
add_flag key values f = insert key (append_to (lookup key f) values) f

-- The second loop of Combine, over the entries of the second map.
abbrev pub combine_from : Flags → Flags → Flags → Flags
combine_from first combined [] = combined
combine_from first combined ((key, values) ∷ second) =
    combine_from first (insert key (append_to (lookup key first) values) combined) second

unfoldable pub combine : Flags → Flags → Flags
combine first second = combine_from first first second

abbrev pub pairs : String → List String → List String
pairs flag [] = []
pairs flag (v ∷ vs) = flag ∷ v ∷ pairs flag vs

unfoldable pub expand : String → List String → List String
expand flag [] = flag ∷ []
expand flag (v ∷ vs) = pairs flag (v ∷ vs)

abbrev pub expand_all : Flags → List String
expand_all [] = []
expand_all ((flag, values) ∷ f) = expand flag values ++ expand_all f

unfoldable pub apply_to_command : Flags → String → List String → List String
apply_to_command f command args =
    (if str_eq command "" then [] else command ∷ []) ++ expand_all f ++ args

-- The arguments of the `restic` process that Prune runs. BuildArgs pairs each tag with --tag.
unfoldable pub prune_args : Flags → List Keep → List Keep → Policy → List String → List String
unfolding apply_to_command
prune_args global order order' c tags =
    apply_to_command global "forget" (
      "--prune"
      ∷ (keep_n_args c order
          ++ keep_within_args c order'
          ++ (if c.keep_tags then "--keep-tag" ∷ [] else [])
          ++ (if str_eq c.hostname "" then [] else concat ("--host=" ∷ c.hostname ∷ []) ∷ [])))
    ++ pairs "--tag" tags
