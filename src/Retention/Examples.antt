-- ===== src/Retention/Examples.antt =====
-- A policy that keeps the last three snapshots and what is younger than a day.
use k8up.Prelude.{
  String, ◌≡◌, refl, true, false, not, ◌&&◌, ◌||◌, Option, some, List, [], ◌∷◌, is_some, itoa,
}
use k8up.Prelude.Int.{ℤ, pos}
use k8up.Retention.{
  Keep, last, hourly, daily, weekly, monthly, yearly, Policy, Flags, validate_prune, prune_args,
  apply_to_command, expand,
}
use k8up.Retention.Accepted.{every, is_negative, is_valid_within, validate_prune_lem}

abbrev numbers : Keep → ℤ
numbers last = pos 3
numbers k = pos 0

abbrev durations : Keep → String
durations last = "24h"
durations k = ""

abbrev policy : Policy
policy = record {
  do_prune = true;
  keep_n = numbers;
  keep_within = durations;
  keep_tags = false;
  hostname = "ns";
}

abbrev a_day : String → Option ℤ
a_day s = some (pos 86400)

abbrev order : List Keep
order = yearly ∷ last ∷ hourly ∷ daily ∷ weekly ∷ monthly ∷ []

prune_run :
    prune_args (("--json", []) ∷ []) order order policy ("t" ∷ [])
    ≡ "forget" ∷ "--json" ∷ "--prune" ∷ "--keep-last" ∷ "3" ∷ "--keep-within" ∷ "24h" ∷ "--host=ns"
      ∷ "--tag" ∷ "t" ∷ []
unfolding prune_args apply_to_command expand itoa
prune_run = refl

validate_prune_lem_example : not (is_some (validate_prune a_day order order policy)) ≡ (
    not policy.do_prune
    || every (λ k. not (is_negative (policy.keep_n k))) order
      && every (is_valid_within a_day policy) order)
validate_prune_lem_example = validate_prune_lem a_day policy order order

abbrev global : Flags
global = ("--option", "a" ∷ []) ∷ []

abbrev extra : Flags
extra = ("--option", "b" ∷ []) ∷ ("--json", []) ∷ []
