-- ===== src/Status/Plain.antt =====
-- A plain implementation of `ConditionApi`, which shows that its laws can be met: the entry of a type
-- is replaced where it stands, or added at the end.
use k8up.Prelude.{
  String, ◌≡◌, refl, Option, none, some, List, [], ◌∷◌, arith, if◌then◌else◌, str_eq, eq_iff,
}
use k8up.Status.{Condition, ConditionApi}

abbrev find_in : List Condition → String → Option Condition
find_in [] t = none
find_in (c ∷ cs) t = if str_eq c.kind t then some c else find_in cs t

abbrev set_in : List Condition → Condition → List Condition
set_in [] d = d ∷ []
set_in (c ∷ cs) d = if str_eq c.kind d.kind then d ∷ cs else c ∷ set_in cs d

abbrev remove_in : List Condition → String → List Condition
remove_in [] t = []
remove_in (c ∷ cs) t = let rest = remove_in cs t in if str_eq c.kind t then rest else c ∷ rest

pub find_in-set_in :
    (cs : List Condition) (d : Condition) (t : String)
    → find_in (set_in cs d) t ≡ (if str_eq d.kind t then some d else find_in cs t)
find_in-set_in [] d t = refl
find_in-set_in (c ∷ cs) d t =
    ground (arith, find_in-set_in cs d t, eq_iff c.kind d.kind, eq_iff c.kind t, eq_iff d.kind t)

pub find_in-remove_in :
    (cs : List Condition) (k t : String)
    → find_in (remove_in cs k) t ≡ (if str_eq k t then none else find_in cs t)
find_in-remove_in [] k t = ground arith
find_in-remove_in (c ∷ cs) k t =
    ground (arith, find_in-remove_in cs k t, eq_iff c.kind k, eq_iff c.kind t, eq_iff k t)

abbrev pub plain : ConditionApi
plain = record {
  find = find_in;
  set = set_in;
  remove = remove_in;
  find-set = find_in-set_in;
  find-remove = find_in-remove_in;
}
