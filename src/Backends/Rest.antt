-- ===== src/Backends/Rest.antt =====
-- The repository string of a REST server (api/v1/backend.go) and the URL that it stands for.
use Prim.Native.Char.{Char, code}
use Prim.Native.String
use text.Mathlib.TextEquality.{Char-path}
use text.Mathlib.TextLemmas.{
  append_cancel_left, append_cancel_right, append-nil, nil-append, cons-append,
}
use k8up.Prelude.{
  String, ◌≡◌, refl, sym, ap, ◌∙◌, Bool, true, false, none, some, ◌==◌, arith, concat, Option-cases,
  inl, inr, ==_iff, ◌∷◌, [],
}
use k8up.Backends.{RestServerSpec, rest_string, cut, cut_here, after_separator}

same_code : (c : Char) (d : Char) → (code c == code d) ≡ true → c ≡ d
same_code c d h = Char-path c d ((==_iff (code c) (code d)).0 h)

-- A text with the separator in front, and one text after another, by clauses.
abbrev separated : String → String
separated t = String.◌∷◌ ":" (String.◌∷◌ "/" (String.◌∷◌ "/" t))

abbrev glue : String → String → String
glue String.[] t = t
glue (String.◌∷◌ c s) t = String.◌∷◌ c (glue s t)

-- A text at whose start the separator is found is the separator and what follows it.
after_separator_found : (s a : String) → after_separator s ≡ some a → s ≡ separated a
unfolding after_separator
after_separator_found (String.◌∷◌ c (String.◌∷◌ d (String.◌∷◌ e s))) a h =
    let parts : ((code c == b':') ≡ true)
        × ((code d == b'/') ≡ true)
        × ((code e == b'/') ≡ true)
        × (s ≡ a) =
      ground arith in
    let (p, q, r, t) = parts in rw (same_code c ":" p, same_code d "/" q, same_code e "/" r, t) refl
after_separator_found (String.◌∷◌ c (String.◌∷◌ d String.[])) a h = cc
after_separator_found (String.◌∷◌ c String.[]) a h = cc
after_separator_found String.[] a h = cc

tail_free :
    (c d e : Char) (s t : String)
    → after_separator (String.◌∷◌ c (String.◌∷◌ d (String.◌∷◌ e s))) ≡ none
    → after_separator (String.◌∷◌ c (String.◌∷◌ d (String.◌∷◌ e t))) ≡ none
unfolding after_separator
tail_free c d e s t h = ground arith

-- Whether the separator stands at the start of a text that goes on with it does not depend on what
-- follows it there.
after_separator-none :
    (c : Char) (b a t : String)
    → after_separator (String.◌∷◌ c (glue b (separated a))) ≡ none
    → after_separator (String.◌∷◌ c (glue b (separated t))) ≡ none
after_separator-none c String.[] a t h = tail_free c ":" "/" _ (String.◌∷◌ "/" t) h
after_separator-none c (String.◌∷◌ d String.[]) a t h = tail_free c d ":" _ _ h
after_separator-none c (String.◌∷◌ d (String.◌∷◌ e b)) a t h = tail_free c d e _ _ h

-- The text whose cut is `r`, and the cut of the same text with another end.
abbrev Rejoins : String → String × String × Bool → Type 0
Rejoins s (before, after, found) =
    found ≡ true
    → (s ≡ glue before (separated after))
      × ((t : String) → cut (glue before (separated t)) ≡ (before, t, true))

cut_next :
    (c : Char) (s b t : String)
    → after_separator (String.◌∷◌ c s) ≡ none
    → cut s ≡ (b, t, true)
    → cut (String.◌∷◌ c s) ≡ (String.◌∷◌ c b, t, true)
unfolding cut cut_here
cut_next c s b t n e = rw (n, e) refl

cut_cons :
    (c : Char) (s : String)
    → cut (String.◌∷◌ c s) ≡ cut_here (after_separator (String.◌∷◌ c s)) c (cut s)
unfolding cut
cut_cons c s = refl

rejoin_next :
    (c : Char) (s : String) (r : String × String × Bool)
    → after_separator (String.◌∷◌ c s) ≡ none
    → Rejoins s r
    → Rejoins (String.◌∷◌ c s) (cut_here none c r)
unfolding cut_here
rejoin_next c s (b, a, found) n h = λ f.
    let (e, again) = h f in
    (
      ap (String.◌∷◌ c) e,
      λ t. cut_next c _ b t (after_separator-none c b a t (rw e at n)) (again t),
    )

cut_at_once : (t : String) → cut (separated t) ≡ ("", t, true)
unfolding cut cut_here after_separator
cut_at_once t = refl

cut_empty : (cut "").2 ≡ false
unfolding cut
cut_empty = refl

cut-Rejoins : (s : String) → Rejoins s (cut s)
unfolding cut_here
cut-Rejoins String.[] = λ h. cc (h, cut_empty)
cut-Rejoins (String.◌∷◌ c s) = elim (Option-cases (after_separator (String.◌∷◌ c s))) [
  | inl n ↦ rw (cut_cons c s, n) (rejoin_next c s (cut s) n (cut-Rejoins s))
  | inr (a, e) ↦ rw (cut_cons c s, e) (λ f. (after_separator_found _ a e, cut_at_once))
]

cut_finds : (p u : String) → (cut (glue p (separated u))).2 ≡ true
unfolding cut_here
cut_finds String.[] u = ap (λ r. r.2) (cut_at_once u)
cut_finds (String.◌∷◌ c p) u =
    elim (Option-cases (after_separator (String.◌∷◌ c (glue p (separated u))))) [
      | inl n ↦ rw (cut_cons c (glue p (separated u)), n) (cut_finds p u)
      | inr (a, e) ↦ rw (cut_cons c (glue p (separated u)), e) refl
    ]

glue_append : (s t : String) → glue s t ≡ String.◌++◌ s t
glue_append String.[] t = sym (nil-append t)
glue_append (String.◌∷◌ c s) t = ap (String.◌∷◌ c) (glue_append s t) ∙ sym (cons-append c s t)

separated_append : (t : String) → separated t ≡ String.◌++◌ "://" t
separated_append t = glue_append "://" t

-- What stands behind the protocol in a repository string.
abbrev credentials : String → String
credentials u = concat ("$(USER)" ∷ ":" ∷ "$(PASSWORD)" ∷ "@" ∷ u ∷ [])

credentials_injective : (u v : String) → credentials u ≡ credentials v → u ≡ v
credentials_injective u v e = append_cancel_right u v "" (
    append_cancel_left "@" _ _ (
      append_cancel_left "$(PASSWORD)" _ _
        (append_cancel_left ":" _ _ (append_cancel_left "$(USER)" _ _ e))))

-- The URL has the separator somewhere.
abbrev pub HasProtocol : String → Type 0
HasProtocol url = (p : String) × (u : String) × (url ≡ concat (p ∷ "://" ∷ u ∷ []))

HasProtocol-cut : (url : String) → HasProtocol url → (cut url).2 ≡ true
HasProtocol-cut url (p, u, e) =
    rw (e, append-nil u, sym (separated_append u), sym (glue_append p (separated u)))
      (cut_finds p u)

joined :
    (p u : String)
    → String.◌++◌ p (String.◌++◌ "://" (credentials u)) ≡ glue p (separated (credentials u))
joined p u = ap (String.◌++◌ p) (sym (separated_append _)) ∙ sym (glue_append p _)

-- Two REST servers whose URLs have a protocol and whose repository strings are the same have the same
-- URL.
pub rest_string_injective :
    (a b : RestServerSpec)
    → HasProtocol a.url
    → HasProtocol b.url
    → rest_string a ≡ rest_string b
    → a.url ≡ b.url
unfolding rest_string
rest_string_injective a b ha hb e =
    let (url_a, again_a) = cut-Rejoins a.url (HasProtocol-cut a.url ha) in
    let (url_b, again_b) = cut-Rejoins b.url (HasProtocol-cut b.url hb) in
    let (pa, ua, fa) = cut a.url in
    let (pb, ub, fb) = cut b.url in
    let same : glue pa (separated (credentials ua)) ≡ glue pb (separated (credentials ub)) =
      sym (joined pa ua) ∙ (append_cancel_left "rest:" _ _ e ∙ joined pb ub) in
    let parts = sym (again_a (credentials ua)) ∙ (ap cut same ∙ again_b (credentials ub)) in
    url_a
    ∙ (cc (ap (λ r. r.0) parts, credentials_injective ua ub (ap (λ r. r.1) parts)) ∙ sym url_b)
