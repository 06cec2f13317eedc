-- ===== src/Evidence/Matching.antt =====
-- When the table says that the engines agree.
use mathlib.Core.Logic.{if_pos, if_neg}
use mathlib.Core.Path.{subst, fun_ext}
use flink_control_plane_poc.Prelude.{
  String, ◌≡◌, ◌≢◌, refl, sym, ap, ◌∙◌, ◌↔◌, ◌⊎◌, inl, inr, Bool, true, false, Option, none, some,
  List, [], ◌∷◌, map, arith, if◌then◌else◌,
}
use flink_control_plane_poc.Prelude.Equality.{◌==◌, string_eq, contains}
use flink_control_plane_poc.Prelude.Lists.{All}
use flink_control_plane_poc.Cluster.{MockCluster, AuditEntry}
use flink_control_plane_poc.Prelude.Dict.{lookup}
use flink_control_plane_poc.Domain.{FamilyStatus}
use flink_control_plane_poc.Evidence.{
  hash_set, is_match, scenario_data, get_state_data, state_match,
}

-- The hashes that are there are all one, and there is one.
pub record AreOne (hashes : List String) : Type 0 where
  pub hash : String
  pub there : hash ≢ "missing"
  pub has : contains hash hashes ≡ true
  pub each : All (λ other. (other ≡ "missing") ⊎ (other ≡ hash)) hashes

-- What the set holds, by how many hashes there are.
data Set (hashes : List String) : List String → Type 0 where
  empty : All (λ other. other ≡ "missing") hashes → Set hashes []
  one :
      (hash : String)
      → hash ≢ "missing"
      → contains hash hashes ≡ true
      → All (λ other. (other ≡ "missing") ⊎ (other ≡ hash)) hashes
      → Set hashes (hash ∷ [])
  more :
      (first second : String) (rest : List String)
      → first ≢ second
      → first ≢ "missing"
      → second ≢ "missing"
      → contains first hashes ≡ true
      → contains second hashes ≡ true
      → Set hashes (first ∷ second ∷ rest)

contains-later :
    (a h : String) (hs : List String) → contains a hs ≡ true → contains a (h ∷ hs) ≡ true
unfolding contains
contains-later a h hs is = ground (arith, is)

contains_self : (h : String) (hs : List String) → contains h (h ∷ hs) ≡ true
unfolding contains
contains_self h hs = ground arith

contains_one : (a h : String) → contains a (h ∷ []) ≡ true → a ≡ h
unfolding contains
contains_one a h is = ground (arith, is)

not_contains_one : (a h : String) → contains a (h ∷ []) ≡ false → a ≢ h
unfolding contains
not_contains_one a h is = ground (arith, is)

not_contains_first : (a h : String) (hs : List String) → contains a (h ∷ hs) ≡ false → a ≢ h
unfolding contains
not_contains_first a h hs is = ground (arith, is)

weaker :
    (h : String) (hs : List String)
    → All (λ other. other ≡ "missing") hs
    → All (λ other. (other ≡ "missing") ⊎ (other ≡ h)) hs
weaker h [] all = tt
weaker h (x ∷ rest) (is, all) = (inl is, weaker h rest all)

-- One more that is missing.
Set-missing : {hs set : List String} (h : String) → h ≡ "missing" → Set hs set → Set (h ∷ hs) set
Set-missing h is (Set.empty all) = Set.empty (is, all)
Set-missing h is (Set.one x there has all) =
    Set.one x there (contains-later x h _ has) (inl is, all)
Set-missing h is (Set.more x y rest ne there there' has has') =
    Set.more x y rest ne there there' (contains-later x h _ has) (contains-later y h _ has')

-- One more that is there already.
Set-again :
    {hs set : List String} (h : String) → contains h set ≡ true → Set hs set → Set (h ∷ hs) set
unfolding contains
Set-again h is (Set.empty all) = absurd (let clash : false ≡ true = is in cc)
Set-again h is (Set.one x there has all) =
    Set.one x there (contains-later x h _ has) (inr (contains_one h x is), all)
Set-again h is (Set.more x y rest ne there there' has has') =
    Set.more x y rest ne there there' (contains-later x h _ has) (contains-later y h _ has')

-- One more that is new.
Set-new :
    {hs set : List String} (h : String)
    → h ≢ "missing"
    → contains h set ≡ false
    → Set hs set
    → Set (h ∷ hs) (h ∷ set)
Set-new h there new (Set.empty all) = Set.one h there (contains_self h _) (inr refl, weaker h _ all)
Set-new h there new (Set.one x there' has all) =
    Set.more h x [] (not_contains_one h x new) there there' (contains_self h _)
      (contains-later x h _ has)
Set-new h there new (Set.more x y rest ne there' _ has _) =
    Set.more h x (y ∷ rest) (not_contains_first h x (y ∷ rest) new) there there' (contains_self h _)
      (contains-later x h _ has)

hash_set-Set : (hs : List String) → Set hs (hash_set hs)
unfolding hash_set
hash_set-Set [] = Set.empty tt
hash_set-Set (h ∷ rest) = go (hash_set-Set rest)
  where
    known :
        {others : List String} (b : Bool)
        → h ≢ "missing"
        → contains h others ≡ b
        → Set rest others
        → Set (h ∷ rest) (if b then others else h ∷ others)
    known true there is set = Set-again h is set
    known false there is set = Set-new h there is set

    go :
        {others : List String}
        → Set rest others
        → Set
            (h ∷ rest)
            (if h == "missing" then others else if contains h others then others else h ∷ others)
    go {others} set = elim (string_eq.dec h "missing") [
      | yes is ↦ rw (if_pos _ is) (Set-missing h is set)
      | no there ↦ rw (if_neg _ there) (known (contains h others) there refl set)
    ]

All-contains :
    (P : String → Type 0) (a : String) (hs : List String) → All P hs → contains a hs ≡ true → P a
unfolding contains
All-contains P a [] all is = absurd (let clash : false ≡ true = is in cc)
All-contains P a (h ∷ rest) (p, all) is = elim (string_eq.dec a h) [
  | yes same ↦ subst P (sym same) p
  | no other ↦ All-contains P a rest all (ground (arith, is, other))
]

is_the_one :
    {hs : List String} (o : AreOne hs) (a : String)
    → a ≢ "missing"
    → contains a hs ≡ true
    → a ≡ o.hash
is_the_one o a there has =
    elim (All-contains (λ other. (other ≡ "missing") ⊎ (other ≡ o.hash)) a _ o.each has) [
      | inl missing ↦ absurd (there missing)
      | inr same ↦ same
    ]

-- A match of the hashes is shown if and only if at least one engine has left what is compared, and
-- all that have left it have the same hash.
pub is_match-AreOne : (hashes : List String) → (is_match hashes ≡ true) ↔ AreOne hashes
unfolding is_match
is_match-AreOne hashes = go (hash_set-Set hashes)
  where
    go :
        {set : List String}
        → Set hashes set
        → (elim set [ [] ↦ false | x ∷ rest ↦ elim rest [ [] ↦ true | y ∷ others ↦ false ] ] ≡ true)
          ↔ AreOne hashes
    go (Set.empty all) = (
      λ is. absurd (let clash : false ≡ true = is in cc),
      λ o. absurd (o.there (All-contains (λ other. other ≡ "missing") o.hash _ all o.has)),
    )
    go (Set.one x there has all) =
        (λ _. record { hash = x; there = there; has = has; each = all }, λ _. refl)
    go (Set.more x y rest ne there there' has has') = (
      λ is. absurd (let clash : false ≡ true = is in cc),
      λ o. absurd (ne (is_the_one o x there has ∙ sym (is_the_one o y there' has'))),
    )

module _ (dump_entry : AuditEntry → String)
    (dump_families : (String → Option FamilyStatus) → String) (sha256_8 : String → String) where
  -- A directory that was not copied, or that has under each name the status that `c` has.
  abbrev pub IsSameState : MockCluster → Option MockCluster → Type 0
  IsSameState c none = Unit
  IsSameState c (some c') = (family : String) → lookup family c'.families ≡ lookup family c.families

  state_hash_of : Option MockCluster → String
  unfolding scenario_data
  state_hash_of found = (scenario_data dump_entry dump_families sha256_8 found).state_hash

  state_hash-IsSameState :
      (c : MockCluster) (found : Option MockCluster)
      → IsSameState c found
      → (state_hash_of found ≡ "missing") ⊎ (state_hash_of found ≡ state_hash_of (some c))
  unfolding state_hash_of scenario_data get_state_data
  state_hash-IsSameState c none same = inl refl
  state_hash-IsSameState c (some c') same =
      inr (ap (λ f. sha256_8 (dump_families f)) (fun_ext same))

  all_same :
      (c : MockCluster) (rest : List (Option MockCluster))
      → All (IsSameState c) rest
      → All
          (λ other. (other ≡ "missing") ⊎ (other ≡ state_hash_of (some c)))
          (map state_hash_of rest)
  all_same c [] same = tt
  all_same c (found ∷ rest) (first, same) =
      (state_hash-IsSameState c found first, all_same c rest same)

  -- Where the plain engine has left its files, and each other engine files with the same statuses or
  -- none, the table shows a match of the states, as no digest reads "missing".
  pub state_match-IsSameState :
      ((text : String) → sha256_8 text ≢ "missing")
      → (c : MockCluster) (rest : List (Option MockCluster)) → All (IsSameState c) rest
      → state_match dump_entry dump_families sha256_8 (some c ∷ rest) ≡ true
  unfolding state_match state_hash_of scenario_data get_state_data
  state_match-IsSameState digest c rest same =
      (is_match-AreOne (map state_hash_of (some c ∷ rest))).1 (record {
        hash = state_hash_of (some c);
        there = digest _;
        has = contains_self _ _;
        each = (inr refl, all_same c rest same);
      })
