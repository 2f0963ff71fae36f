-- ===== src/Pkg/Crypto.antt =====
-- internal/pkg/crypto: the password hasher and the token manager. bcrypt, the random bytes, SHA-256
-- and Base64 are a parameter, `Primitives`; a `Bytes` is what the packages hand on.
use Prim.Native.String.{len}
use aita.Common.{ℕ, ℤ, String, ◌≡◌, arith}
use aita.Exec.{ok, Exec, ◌>>=◌, >>=-eq-ok, pure}
use aita.Service.User.{PasswordHasher}
use aita.Service.Session.{TokenManager}

pub record Primitives (S Bytes : Type 0) : Type 0 where
  pub bytes_of : String → Bytes
  pub string_of : Bytes → String
  pub generate_from_password : Bytes → ℤ → Exec S Bytes
  pub compare_hash_and_password : Bytes → Bytes → Exec S Unit
  pub random_bytes : ℕ → Exec S Bytes
  pub sum_256 : Bytes → Bytes
  pub encode_to_string : Bytes → String

module _ {S Bytes : Type 0} (lib : Primitives S Bytes) where
  -- bcryptHasher.Generate
  unfoldable pub generate_hash : ℤ → String → Exec S String
  generate_hash cost password = do
    hash ← lib.generate_from_password (lib.bytes_of password) cost
    pure (lib.string_of hash)

  -- bcryptHasher.Compare
  unfoldable pub compare_hash : String → String → Exec S Unit
  compare_hash hashed_password password =
      lib.compare_hash_and_password (lib.bytes_of hashed_password) (lib.bytes_of password)

  -- tokenManager.Generate
  unfoldable pub generate_token : ℕ → Exec S String
  generate_token length = do b ← lib.random_bytes length; pure (lib.encode_to_string b)

  -- tokenManager.Hash
  unfoldable pub hash_token : String → String
  hash_token token = lib.encode_to_string (lib.sum_256 (lib.bytes_of token))

  -- The hasher and the token manager as the interfaces of the services.
  unfoldable pub as_hasher : ℤ → PasswordHasher S
  as_hasher cost = record { generate = generate_hash cost; compare = compare_hash }

  unfoldable pub as_token_manager : TokenManager S
  as_token_manager = record { generate = generate_token; hash = hash_token }

-- base64.URLEncoding writes 32 bytes as 44 characters.
pub record IsEncoding {S Bytes : Type 0} (lib : Primitives S Bytes) : Type 0 where
  pub encodes :
      (b : Bytes) (s s' : S)
      → lib.random_bytes 32 s ≡ (ok b, s')
      → len (lib.encode_to_string b) ≡ 44

-- A token is as long as that.
pub generate_token-len :
    {S Bytes : Type 0} (lib : Primitives S Bytes)
    → IsEncoding lib
    → (token : String) (s s' : S) → generate_token lib 32 s ≡ (ok token, s')
    → len token ≡ 44
unfolding generate_token
generate_token-len lib law token s s' h =
    let (b, t, drawn, rest) =
      >>=-eq-ok (lib.random_bytes 32) (λ b. pure (lib.encode_to_string b)) s h in
    ground (arith, law.encodes b s t drawn, rest)
