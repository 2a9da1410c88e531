-- ===== src/Identity.antt =====
-- The identity of a device (identity.go, `Identity`, `LoadOrCreateIdentity`, `Sign`, `SafetyNumber`). The
-- key libraries, base64 and JSON are the fields of `KeyLib`; the random keys are arguments, `none` where
-- the random source fails.
pub mod Stable
use lanrunner.Common.{
  ℕ, Bool, true, false, List, [], ◌∷◌, ◌++◌, Option, none, some, not, ◌&&◌, ◌-◌, ◌==◌, leb,
  if◌then◌else◌, Text, codes, length,
}
use lanrunner.Peers.Discovery.{Crypto, join, fingerprint}

pub record KeyFile : Type 0 where
  pub version : ℕ
  pub ed_seed : Text
  pub x_priv : Text
  pub made : Text

-- A private key is its bytes.
pub record KeyLib : Type 0 where
  pub parse : Text → Option KeyFile
  pub marshal : KeyFile → Option Text
  pub base64_encode : List ℕ → Text
  pub key_from_seed : List ℕ → List ℕ
  pub seed_of : List ℕ → List ℕ
  pub ed_public : List ℕ → List ℕ
  pub x_private : List ℕ → Option (List ℕ)
  pub x_bytes : List ℕ → List ℕ
  pub x_public : List ℕ → List ℕ
  pub ed25519_sign : List ℕ → Text → List ℕ

pub record Identity : Type 0 where
  pub ed_priv : List ℕ
  pub ed_pub : List ℕ
  pub x_priv : List ℕ
  pub x_pub : List ℕ
  pub fp : Text

-- What the path of the key file holds.
pub data File : Type 0 where
  absent unreadable : File
  content : Text → File

-- Why there is no identity.
pub data IdentityError : Type 0 where
  corrupt unusable_seed unusable_x25519 no_ed_key no_x_key no_json no_directory no_write :
      IdentityError

-- The bool says that the keys are new.
pub data Loaded : Type 0 where
  loaded : Identity → Bool → Loaded
  unusable : IdentityError → Loaded

module _ (c : Crypto) (k : KeyLib) where
  pub identity_of : List ℕ → List ℕ → Identity
  identity_of ed_priv x_priv = record {
    ed_priv = ed_priv;
    ed_pub = k.ed_public ed_priv;
    x_priv = x_priv;
    x_pub = k.x_public x_priv;
    fp = fingerprint c (k.ed_public ed_priv);
  }

  pub with_x : List ℕ → Option (List ℕ) → Loaded
  unfolding identity_of
  with_x seed none = unusable unusable_x25519
  with_x seed (some x) = loaded (identity_of (k.key_from_seed seed) x) false

  pub x_decoded : List ℕ → Option (List ℕ) → Loaded
  unfolding with_x
  x_decoded seed none = unusable unusable_x25519
  x_decoded seed (some raw) = with_x seed (k.x_private raw)

  pub with_seed : KeyFile → Option (List ℕ) → Loaded
  unfolding x_decoded
  with_seed kf none = unusable unusable_seed
  with_seed kf (some seed) =
      if not (length seed == 32)
      then unusable unusable_seed
      else x_decoded seed (c.base64_decode kf.x_priv)

  pub read_keys : Option KeyFile → Loaded
  unfolding with_seed
  read_keys none = unusable corrupt
  read_keys (some kf) = with_seed kf (c.base64_decode kf.ed_seed)

  unfoldable pub key_file : List ℕ → List ℕ → Text → KeyFile
  key_file ed_priv x_priv made = record {
    version = 2;
    ed_seed = k.base64_encode (k.seed_of ed_priv);
    x_priv = k.base64_encode (k.x_bytes x_priv);
    made = made;
  }

  -- What is on disk after, and the result. A write that fails is taken to leave the file.
  pub store_keys : File → List ℕ → List ℕ → Bool → Bool → Option Text → File × Loaded
  unfolding identity_of
  store_keys file ed_priv x_priv dir writes none = (file, unusable no_json)
  store_keys file ed_priv x_priv dir writes (some blob) =
      if not dir
      then (file, unusable no_directory)
      else if not writes
      then (file, unusable no_write)
      else (content blob, loaded (identity_of ed_priv x_priv) true)

  pub create_identity :
      File → Option (List ℕ) → Option (List ℕ) → Text → Bool → Bool → File × Loaded
  unfolding key_file store_keys
  create_identity file none x made dir writes = (file, unusable no_ed_key)
  create_identity file (some ed_priv) none made dir writes = (file, unusable no_x_key)
  create_identity file (some ed_priv) (some x_priv) made dir writes =
      store_keys file ed_priv x_priv dir writes (k.marshal (key_file ed_priv x_priv made))

  pub load_or_create_identity :
      File → Option (List ℕ) → Option (List ℕ) → Text → Bool → Bool → File × Loaded
  unfolding read_keys create_identity
  load_or_create_identity (content blob) ed x made dir writes =
      (content blob, read_keys (k.parse blob))
  load_or_create_identity absent ed x made dir writes = create_identity absent ed x made dir writes
  load_or_create_identity unreadable ed x made dir writes =
      create_identity unreadable ed x made dir writes

  pub sign : Identity → Text → Text
  sign id payload = k.base64_encode (k.ed25519_sign id.ed_priv payload)

-- `strings.ToUpper` on the ASCII of a fingerprint.
abbrev pub upper : ℕ → ℕ
upper r = if leb b'a' r && leb r b'z' then r - 32 else r

-- Groups of four; what is left over goes.
pub groups : Text → List Text
groups (a ∷ b ∷ c ∷ d ∷ s) = (upper a ∷ upper b ∷ upper c ∷ upper d ∷ []) ∷ groups s
groups [] = []
groups (a ∷ []) = []
groups (a ∷ b ∷ []) = []
groups (a ∷ b ∷ c ∷ []) = []

pub safety_number : Text → Text
unfolding groups
safety_number fp = join (codes "-") (groups fp)
