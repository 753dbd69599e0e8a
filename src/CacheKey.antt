-- ===== src/CacheKey.antt =====
-- The cache keys of src/core/cache/cacheKey.ts: scoped to the settings of a client and to the
-- identity whose token a request carries. How a header names an identity (callerIdentity.ts, a
-- decoded token or a SHA-256 hash) is a parameter. The memo `identities`, which only saves the
-- computation, is left out.
pub mod Accepted
pub mod Separation
use esi_ts.Prelude.{
  ℕ, zero, suc, ◌+◌, ◌-◌, ◌*◌, ◌/◌, ◌%◌, ◌^◌, ◌≤◌, ◌<◌, min, max, String, ◌≡◌, refl, sym, ap, ◌∙◌,
  ◌≢◌, ◌↔◌, ◌⊎◌, inl, inr, Bool, true, false, not, ◌&&◌, ◌||◌, Option, none, some, List, [], ◌∷◌,
  ◌++◌, map, arith, str_eq, eq_iff, ltb, leb, ◌==◌, if◌then◌else◌, ltb→lt, lt→ltb, leb→le, le→leb,
  ==_iff, leb-false, ltb-false, ltb_of_le, eq_of_ne, leb_of_lt, eq_or_lt, or_default, Bool-cases,
  Option-cases, length, take, drop, any, length-append, All, All-append, All-imp,
}
use Prim.Native.String.{◌++◌ as append_text}

-- What of an `ApiClient` the keys depend on, with the hashes of `accepted` in their order of
-- insertion. An empty tenant, language, date or header is falsy and read as an absent one.
pub record KeyClient : Type 0 where
  pub link : String
  pub tenant : Option String
  pub language : Option String
  pub compatibility_date : Option String
  pub authorization : Option String
  pub accepted : List String

abbrev pub accepted_limit : ℕ
accepted_limit = 64

abbrev pub default_link : String
default_link = "https://esi.evetech.net"

-- COMPATIBILITY_DATE of src/core/constants.ts.
abbrev pub default_date : String
default_date = "2026-08-18"

infixr 65 ◌<>◌
abbrev pub ◌<>◌ : String → String → String
s <> t = append_text s t

-- `a ? a : none`.
abbrev pub truthy : Option String → Option String
truthy none = none
truthy (some s) = if str_eq s "" then none else some s

abbrev labelled : String → Option String → List String
labelled label none = []
labelled label (some s) = (label <> s) ∷ []

-- `parts.join(';')`.
abbrev join_parts : List String → String
join_parts [] = ""
join_parts (p ∷ []) = p
join_parts (p ∷ q ∷ ps) = p <> ";" <> join_parts (q ∷ ps)

date_part : Option String → List String
date_part none = []
date_part (some date) = if str_eq date default_date then [] else ("compat=" <> date) ∷ []

bracketed : List String → String
bracketed [] = ""
bracketed (p ∷ ps) = "[" <> join_parts (p ∷ ps) <> "]"

unfoldable pub variant_of : KeyClient → String
unfolding date_part bracketed
variant_of c = bracketed (
    (if str_eq c.link default_link then [] else ("host=" <> c.link) ∷ [])
    ++ (labelled "tenant=" (truthy c.tenant)
        ++ (labelled "lang=" (truthy c.language) ++ date_part (truthy c.compatibility_date))))

unfoldable pub scoped : String → Option String → String
scoped key none = key
scoped key (some identity) = identity <> ":" <> key

unfoldable pub scope : KeyClient → String → Option String → String
unfolding scoped
scope c key identity = variant_of c <> scoped key identity

-- Without its first entry.
abbrev pub without_first : List String → List String
without_first [] = []
without_first (h ∷ hs) = hs

unfoldable pub has_hash : List String → String → Bool
has_hash hs hash = any (λ h. str_eq h hash) hs

-- The header that decides: the given one, else the client's, if it is not empty.
unfoldable pub header_of : KeyClient → Option String → Option String
header_of c none = truthy c.authorization
header_of c (some header) = truthy (some header)

module _ (caller_identity hashed_identity : String → String) where
  unfoldable pub mark_token_accepted : KeyClient → String → KeyClient
  mark_token_accepted c header =
      let hash = hashed_identity header in
      if has_hash c.accepted hash then c else record c {
        accepted =
            (if leb accepted_limit (length c.accepted)
              then without_first c.accepted
              else c.accepted)
            ++ hash ∷ [];
      }

  unfoldable pub is_accepted : KeyClient → String → Bool
  is_accepted c header = has_hash c.accepted (hashed_identity header)

  unfoldable pub trusted_identity : KeyClient → Bool → Option String → Option String
  trusted_identity c requires_auth header =
      if requires_auth
      then elim (header_of c header) [
        | none ↦ none
        | some h ↦ some (if is_accepted c h then caller_identity h else hashed_identity h)
      ]
      else none

  unfoldable pub claimed_identity : KeyClient → Bool → Option String
  claimed_identity c requires_auth =
      if requires_auth
      then elim (header_of c none) [ none ↦ none | some h ↦ some (caller_identity h) ]
      else none

  unfoldable pub build_cache_key : String → KeyClient → Bool → Option String → String
  build_cache_key url c requires_auth header = scope c url (trusted_identity c requires_auth header)

  unfoldable pub build_conditional_cache_key : String → KeyClient → Bool → String
  build_conditional_cache_key url c requires_auth = scope c url (claimed_identity c requires_auth)

  unfoldable pub build_dedupe_key : String → KeyClient → Bool → String
  build_dedupe_key endpoint c requires_auth =
      scope c endpoint (trusted_identity c requires_auth none)

  unfoldable pub mark_all : KeyClient → List String → KeyClient
  mark_all c [] = c
  mark_all c (header ∷ headers) = mark_all (mark_token_accepted c header) headers
