-- ===== src/CacheKey/Accepted.antt =====
-- Which tokens count as accepted.
use esi_ts.Prelude.{
  suc, ◌-◌, ◌≤◌, String, ◌≡◌, refl, ap, ◌∙◌, inl, inr, Bool, true, false, ◌||◌, some, List, [], ◌∷◌,
  ◌++◌, arith, str_eq, leb, if◌then◌else◌, leb-false, Bool-cases, length, length-append, All,
}
use esi_ts.Prelude.Text.{str_eq_refl}
use esi_ts.CacheKey.{
  KeyClient, accepted_limit, has_hash, mark_token_accepted, is_accepted, trusted_identity,
  header_of, mark_all, without_first, build_cache_key, scope,
}

has_hash-append :
    (hs ks : List String) (hash : String)
    → has_hash (hs ++ ks) hash ≡ has_hash hs hash || has_hash ks hash
unfolding has_hash
has_hash-append [] ks hash = refl
has_hash-append (h ∷ hs) ks hash = ground (arith, has_hash-append hs ks hash)

has_hash-without_first :
    (hs : List String) (hash : String)
    → has_hash hs hash ≡ false
    → has_hash (without_first hs) hash ≡ false
unfolding has_hash
has_hash-without_first [] hash h = refl
has_hash-without_first (k ∷ hs) hash h = ground arith

length-without_first : (hs : List String) → length (without_first hs) ≡ length hs - 1
length-without_first [] = refl
length-without_first (h ∷ hs) = omega arith

-- The list that a hash is added to: shortened if it is full.
abbrev room_for_one : List String → List String
room_for_one hs = if leb accepted_limit (length hs) then without_first hs else hs

has_hash-room :
    (hs : List String) (hash : String)
    → has_hash hs hash ≡ false
    → has_hash (room_for_one hs) hash ≡ false
has_hash-room hs hash h = elim (Bool-cases (leb accepted_limit (length hs))) [
  | inl full ↦ rw full (has_hash-without_first hs hash h)
  | inr free ↦ rw free h
]

has_hash-single : (k hash : String) → has_hash (k ∷ []) hash ≡ str_eq k hash || false
unfolding has_hash
has_hash-single k hash = refl

length-room :
    (hs : List String)
    → length hs ≤ accepted_limit
    → suc (length (room_for_one hs)) ≤ accepted_limit
length-room hs h = elim (Bool-cases (leb accepted_limit (length hs))) [
  | inl full ↦ rw full (omega (arith, length-without_first hs))
  | inr free ↦ rw free (omega (arith, leb-false _ _ free))
]

module _ (caller_identity hashed_identity : String → String) where
  abbrev mark : KeyClient → String → KeyClient
  mark c header = mark_token_accepted caller_identity hashed_identity c header

  abbrev accepts : KeyClient → String → Bool
  accepts c header = is_accepted caller_identity hashed_identity c header

  mark-accepted : (c : KeyClient) (header : String) → accepts (mark c header) header ≡ true
  unfolding is_accepted mark_token_accepted
  mark-accepted c header = elim (Bool-cases (has_hash c.accepted (hashed_identity header))) [
    | inl old ↦ rw old old
    | inr new ↦ rw new (
        has_hash-append (room_for_one c.accepted) _ (hashed_identity header)
        ∙ ground (
          arith,
          has_hash-single (hashed_identity header) (hashed_identity header),
          str_eq_refl (hashed_identity header),
        ))
  ]

  mark-bounded :
      (c : KeyClient) (header : String)
      → length c.accepted ≤ accepted_limit
      → length (mark c header).accepted ≤ accepted_limit
  unfolding mark_token_accepted
  mark-bounded c header h = elim (Bool-cases (has_hash c.accepted (hashed_identity header))) [
    | inl old ↦ rw old h
    | inr new ↦ rw new (
        omega (
          arith,
          length-append (room_for_one c.accepted) (hashed_identity header ∷ []),
          length-room c.accepted h,
        ))
  ]

  mark-other :
      (c : KeyClient) (header other : String)
      → str_eq (hashed_identity header) (hashed_identity other) ≡ false
      → accepts c other ≡ false
      → accepts (mark c header) other ≡ false
  unfolding is_accepted mark_token_accepted
  mark-other c header other ne h =
      elim (Bool-cases (has_hash c.accepted (hashed_identity header))) [
        | inl old ↦ rw old h
        | inr new ↦ rw new (
            has_hash-append (room_for_one c.accepted) _ (hashed_identity other)
            ∙ ground (
              arith,
              has_hash-single (hashed_identity header) (hashed_identity other),
              has_hash-room c.accepted (hashed_identity other) h,
            ))
      ]

  -- Marking a token makes it accepted, and keeps the number of remembered tokens within its limit.
  pub mark_token_accepted_lem :
      (c : KeyClient) (header : String)
      → length c.accepted ≤ accepted_limit
      → (is_accepted caller_identity hashed_identity
            (mark_token_accepted caller_identity hashed_identity c header)
            header
          ≡ true)
        × (length (mark_token_accepted caller_identity hashed_identity c header).accepted
            ≤ accepted_limit)
  mark_token_accepted_lem c header h = (mark-accepted c header, mark-bounded c header h)

  accepts-mark_all :
      (c : KeyClient) (headers : List String) (other : String)
      → All (λ h. str_eq (hashed_identity h) (hashed_identity other) ≡ false) headers
      → accepts c other ≡ false
      → accepts (mark_all caller_identity hashed_identity c headers) other ≡ false
  unfolding mark_all
  accepts-mark_all c [] other ne h = h
  accepts-mark_all c (header ∷ headers) other (ne, nes) h =
      accepts-mark_all (mark c header) headers other nes (mark-other c header other ne h)

  -- A token that ESI has not accepted, whatever others it has, is keyed by its hash and never by
  -- the identity that it claims, provided that its hash is not that of an accepted token.
  pub forged_token_hashed :
      (c : KeyClient) (headers : List String) (url forged : String)
      → c.accepted ≡ []
      → All (λ h. str_eq (hashed_identity h) (hashed_identity forged) ≡ false) headers
      → str_eq forged "" ≡ false
      → build_cache_key caller_identity hashed_identity url
          (mark_all caller_identity hashed_identity c headers)
          true
          (some forged)
        ≡ scope
            (mark_all caller_identity hashed_identity c headers)
            url
            (some (hashed_identity forged))
  unfolding build_cache_key trusted_identity header_of
  forged_token_hashed c headers url forged none_yet ne named = rw named (
      rw (
        accepts-mark_all c headers forged ne (
          unfold is_accepted has_hash in ap (λ hs. has_hash hs (hashed_identity forged)) none_yet)))
