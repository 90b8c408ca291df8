-- ===== src/Metrics/Normalize.antt =====
-- `normalizeAttrs` (normalize.go).
use ingest.Prelude.{
  Bool, GoString, List, [], ap, arith, drop, false, if◌then◌else◌, leb, length, lit, nat_key, none,
  not, refl, some, suc, take, take-append, text_key, true, ◌&&◌, ◌++◌, ◌+◌, ◌||◌, ◌∙◌, ◌∷◌, ◌≡◌,
}
use ingest.GoStrings.{cut_prefix, drop_past, last_index_byte, last_index_byte-append}
use ingest.GoMap.{at, insert}
use ingest.Signals.{has_prefix, is_empty}
use ingest.Infra.Otlp.{StringMap, first_non_empty}

-- `attrAliases`
abbrev pub attr_aliases : List (GoString × List GoString)
attr_aliases =
    (lit "db.system", lit "db.system.name" ∷ lit "db.system" ∷ [])
    ∷ (lit "messaging.destination.name", lit "messaging.destination.name" ∷ lit "topic" ∷ [])
    ∷ (lit "messaging.consumer.group.name", lit "messaging.consumer.group.name" ∷ lit "group" ∷ [])
    ∷ []

-- the loop over the aliases; the loop over the sources of one is `first_non_empty`
unfoldable pub fill_aliases : List (GoString × List GoString) → StringMap → StringMap
unfolding first_non_empty
fill_aliases [] attrs = attrs
fill_aliases ((canonical, sources) ∷ aliases) attrs = elim (first_non_empty attrs sources) [
  | [] ↦ fill_aliases aliases attrs
  | c ∷ v ↦ fill_aliases aliases (insert canonical (c ∷ v) attrs)
]

-- `isAllDigits`: no rune but a digit is a byte between '0' and '9'
unfoldable pub digits : GoString → Bool
digits [] = true
digits (c ∷ s) = leb 48 c && leb c 57 && digits s

unfoldable pub is_all_digits : GoString → Bool
unfolding digits
is_all_digits [] = false
is_all_digits (c ∷ s) = digits (c ∷ s)

-- `groupFromClientID`
unfoldable pub group_from_client_id : GoString → GoString
unfolding is_all_digits last_index_byte cut_prefix
group_from_client_id client_id = elim (cut_prefix client_id (lit "consumer-")) [
  | none ↦ []
  | some rest ↦ elim (last_index_byte rest 45) [
    | none ↦ []
    | some i ↦ if leb i 0 || not (is_all_digits (drop (i + 1) rest)) then [] else take i rest
  ]
]

-- the step for the consumer group
unfoldable pub fill_group : StringMap → StringMap
unfolding at group_from_client_id
fill_group attrs =
    if is_empty (at (lit "messaging.consumer.group.name") attrs)
    then elim (group_from_client_id (at (lit "client-id") attrs)) [
      | [] ↦ attrs
      | c ∷ g ↦ insert (lit "messaging.consumer.group.name") (c ∷ g) attrs
    ]
    else attrs

-- `normalizeAttrs`: the map after the call
unfoldable pub normalize_attrs : GoString → StringMap → StringMap
unfolding fill_aliases fill_group
normalize_attrs metric_name attrs =
    let m = fill_group (fill_aliases attr_aliases attrs) in
    if is_empty (at (lit "messaging.system") m) && has_prefix metric_name (lit "kafka.")
    then insert (lit "messaging.system") (lit "kafka") m
    else m

last_index_byte-none : (s : GoString) → digits s ≡ true → last_index_byte s 45 ≡ none
unfolding digits last_index_byte
last_index_byte-none [] h = refl
last_index_byte-none (c ∷ s) h = ground (arith, last_index_byte-none s)

digits_of_all : (d : GoString) → is_all_digits d ≡ true → digits d ≡ true
unfolding is_all_digits
digits_of_all [] h = cc
digits_of_all (c ∷ d) h = h

-- A client id of the form `consumer-<group>-<digits>` gives back its group, whatever the group
-- contains, unless it is empty.
pub group_from_client_id_lem :
    (g d : GoString)
    → is_all_digits d ≡ true
    → group_from_client_id (lit "consumer-" ++ (g ++ 45 ∷ d)) ≡ g
unfolding group_from_client_id is_all_digits lit
group_from_client_id_lem [] d h = rw (last_index_byte-none d (digits_of_all d h))
group_from_client_id_lem (c ∷ g) d h =
    let plus_one : length (c ∷ g) + 1 ≡ suc (length (c ∷ g)) = omega arith in
    let past : drop (length (c ∷ g) + 1) (c ∷ g ++ 45 ∷ d) ≡ d =
      ap (λ n. drop n (c ∷ g ++ 45 ∷ d)) plus_one ∙ drop_past 45 (c ∷ g) d in
    let nonempty : leb (length (c ∷ g)) 0 ≡ false = ground arith in
    rw
      (
        last_index_byte-append 45 (c ∷ g) d (last_index_byte-none d (digits_of_all d h)),
        past,
        h,
        nonempty,
      )
      (take-append (c ∷ g) (45 ∷ d))
