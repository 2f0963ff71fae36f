-- ===== src/Errcode/Laws.antt =====
-- What a client sees of an error: internal/errcode/covert.go.
use aita.Common.{◌≤◌, ◌<◌, ◌≡◌, ◌≢◌, refl, ◌⊎◌, inl, inr, Option, none, some, arith}
use aita.Errcode.{
  Sentinel, Error, Metadata, internal, root, metadata, find_metadata, get_status_code,
  get_business_code,
}

metadata_4xx :
    (c : Sentinel) (m : Metadata)
    → metadata c ≡ some m
    → (400 ≤ m.http_status) × (m.http_status < 500)
unfolding metadata
metadata_4xx c m h = ground arith

metadata-none : (c : Sentinel) → metadata c ≡ none → c ≡ internal
unfolding metadata
metadata-none c h = ground arith

-- The client's fault, with what `metadata` says, or the server's.
pub record IsClientFault (e : Error) : Type 0 where
  pub cause : Sentinel
  pub caused : root e ≡ some cause
  pub named : cause ≢ internal
  pub at_least : 400 ≤ get_status_code (some e)
  pub below : get_status_code (some e) < 500

pub record IsServerFault (e : Error) : Type 0 where
  pub unnamed : (root e ≡ none) ⊎ (root e ≡ some internal)
  pub status : get_status_code (some e) ≡ 500
  pub code : get_business_code (some e) ≡ "INTERNAL_SERVER_ERROR"

metadata-some : (c : Sentinel) (m : Metadata) → metadata c ≡ some m → c ≢ internal
unfolding metadata
metadata-some c m h = ground arith

by_metadata :
    (e : Error) (c : Sentinel) (o : Option Metadata)
    → root e ≡ some c
    → metadata c ≡ o
    → IsClientFault e ⊎ IsServerFault e
unfolding get_status_code get_business_code find_metadata
by_metadata e c none h k = inr (record {
  unnamed = inr (rw (h, metadata-none c k));
  status = rw (get_status_code, h, k);
  code = rw (get_business_code, h, k);
})
by_metadata e c (some m) h k = inl (record {
  cause = c;
  caused = h;
  named = metadata-some c m k;
  at_least = rw (get_status_code, h, k) (metadata_4xx c m k).0;
  below = rw (get_status_code, h, k) (metadata_4xx c m k).1;
})

by_root : (e : Error) (c : Option Sentinel) → root e ≡ c → IsClientFault e ⊎ IsServerFault e
unfolding get_status_code get_business_code find_metadata
by_root e none h =
    inr (record {
      unnamed = inl h;
      status = rw (get_status_code, h);
      code = rw (get_business_code, h);
    })
by_root e (some c) h = by_metadata e c (metadata c) h refl

-- Every error, however deeply it is wrapped, is answered with a status from 400 to 499 where a
-- sentinel other than `ErrInternal` is at the end of its chain, and with 500 and the code
-- INTERNAL_SERVER_ERROR where none is.
pub get_status_code_lem : (e : Error) → IsClientFault e ⊎ IsServerFault e
get_status_code_lem e = by_root e (root e) refl
