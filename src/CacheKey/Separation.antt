-- ===== src/CacheKey/Separation.antt =====
-- Keys of different identities are different.
use esi_ts.Prelude.{String, ◌≡◌, sym, ◌∙◌, true, false, some, str_eq, if◌then◌else◌}
use Prim.Native.String.{◌++◌ as append_text}
use text.Mathlib.TextLemmas.{append_cancel_left, append_cancel_right}
use esi_ts.CacheKey.{
  KeyClient, scope, scoped, variant_of, header_of, is_accepted, trusted_identity, build_cache_key,
}

scope_injective :
    (c : KeyClient) (url i j : String) → scope c url (some i) ≡ scope c url (some j) → i ≡ j
unfolding scope scoped
scope_injective c url i j e =
    append_cancel_right i j (append_text ":" url) (append_cancel_left (variant_of c) _ _ e)

module _ (caller_identity hashed_identity : String → String) where
  -- The identity that decides which entries a header is served.
  abbrev pub identity_for : KeyClient → String → String
  identity_for c header =
      if is_accepted caller_identity hashed_identity c header
      then caller_identity header
      else hashed_identity header

  build_cache_key-scope :
      (c : KeyClient) (url header : String)
      → str_eq header "" ≡ false
      → build_cache_key caller_identity hashed_identity url c true (some header)
        ≡ scope c url (some (identity_for c header))
  unfolding build_cache_key trusted_identity header_of
  build_cache_key-scope c url header named = rw named

  -- Two headers are served the same entry of one URL only if they stand for the same identity: the
  -- cache key of an authenticated request tells all other pairs of headers apart.
  pub build_cache_key_separates :
      (c : KeyClient) (url a b : String)
      → str_eq a "" ≡ false
      → str_eq b "" ≡ false
      → build_cache_key caller_identity hashed_identity url c true (some a)
        ≡ build_cache_key caller_identity hashed_identity url c true (some b)
      → identity_for c a ≡ identity_for c b
  build_cache_key_separates c url a b p q e =
      scope_injective c url (identity_for c a) (identity_for c b)
        (sym (build_cache_key-scope c url a p) ∙ e ∙ build_cache_key-scope c url b q)
