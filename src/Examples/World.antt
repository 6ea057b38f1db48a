-- ===== src/Examples/World.antt =====
-- Toy cryptography that keeps the laws of `IsCrypto`, two instances, and the outside of one.
use mathlib.Core.Option
use n3ur0n.Json
use Prim.Native.Char.{code, char}
use n3ur0n.Prelude.{
  eqb, if◌then◌else◌, Bool-cases, Option-cases, length, take, all, length-append, length-take,
  codes, is_ascii_alphanumeric, ok, ℕ, zero, suc, ◌+◌, ◌≤◌, String, ◌≡◌, refl, inl, inr, Bool, true,
  false, ◌&&◌, Option, none, some, List, [], ◌∷◌, ◌++◌, arith, ◌==◌,
}
use n3ur0n.Capability.{free, private, CapabilityDecl, default_cap_version}
use n3ur0n.Clock.{from_secs}
use n3ur0n.Handler.{Faults, Readings}
use n3ur0n.Identity.{Bytes, Crypto, IsCrypto, Keypair}
use n3ur0n.Json.{Value, null, unsigned, text, as_str}
use n3ur0n.Message.{ProtocolVerb, Envelope, SignedMessage, default_verify}
use n3ur0n.Node.{NodeConfig, Node, Outside}
use n3ur0n.Protocol.{InvokeRequest}
use n3ur0n.Registry.{CapabilityRegistry}
use n3ur0n.Storage.Peers.{PeerRecord}

abbrev zeros : ℕ → List ℕ
zeros zero = []
zeros (suc n) = 0 ∷ zeros n

-- The bytes, cut or filled up to `n`.
abbrev pub fitted : ℕ → List ℕ → List ℕ
fitted n xs = take n (xs ++ zeros n)

unfoldable pub same_bytes : List ℕ → List ℕ → Bool
same_bytes [] [] = true
same_bytes [] (y ∷ ys) = false
same_bytes (x ∷ xs) [] = false
same_bytes (x ∷ xs) (y ∷ ys) = eqb x y && same_bytes xs ys

-- A number as that many `a`, closed by a `b`.
unfoldable pub unary : ℕ → String → String
unary zero rest = String.◌∷◌ (char 98 tt) rest
unary (suc n) rest = String.◌∷◌ (char 97 tt) (unary n rest)

unfoldable pub spelled : List ℕ → String
unfolding unary
spelled [] = ""
spelled (x ∷ xs) = unary x (spelled xs)

unfoldable pub read : ℕ → String → Option (List ℕ)
read n String.[] = some []
read n (String.◌∷◌ ch s) =
    if eqb (code ch) b'a' then read (suc n) s else Option.map (λ xs. n ∷ xs) (read 0 s)

-- The name that a hash spells.
unfoldable pub named : List ℕ → String
named [] = ""
named (x ∷ xs) = if eqb x 0 then "alice" else if eqb x 1 then "bob" else "carol"

abbrev pub toy : Crypto
toy = record {
  sha256 = fitted 32;
  base32_lower = named;
  verifying_key = λ seed. seed;
  sign_bytes = λ seed message. fitted 64 seed;
  verify_bytes = λ key message signature. same_bytes signature (fitted 64 key);
  hex_encode = spelled;
  hex_decode = read 0;
}

length-zeros : (n : ℕ) → length (zeros n) ≡ n
length-zeros zero = refl
length-zeros (suc n) = ground (arith, length-zeros n)

length-fitted : (n : ℕ) (xs : List ℕ) → length (fitted n xs) ≡ n
length-fitted n xs =
    ground (arith, length-take n (xs ++ zeros n), length-append xs (zeros n), length-zeros n)

same_bytes_refl : (xs : List ℕ) → same_bytes xs xs ≡ true
unfolding same_bytes
same_bytes_refl [] = refl
same_bytes_refl (x ∷ xs) = ground (arith, same_bytes_refl xs)

read-unary :
    (n m : ℕ) (rest : String)
    → read n (unary m rest) ≡ Option.map (λ xs. (n + m) ∷ xs) (read 0 rest)
unfolding read unary
read-unary n zero rest = elim (Option-cases (read 0 rest)) [
  | inl bad ↦ ground (arith, bad)
  | inr (xs, good) ↦ ground (arith, good)
]
read-unary n (suc m) rest = ground (arith, read-unary (suc n) m rest)

read-spelled : (xs : List ℕ) → read 0 (spelled xs) ≡ some xs
unfolding read spelled
read-spelled [] = refl
read-spelled (x ∷ xs) = ground (arith, read-unary 0 x (spelled xs), read-spelled xs)

named-alphanumeric : (bytes : List ℕ) → all is_ascii_alphanumeric (codes (named bytes)) ≡ true
unfolding named
named-alphanumeric [] = refl
named-alphanumeric (x ∷ xs) = elim (Bool-cases (eqb x 0)) [
  | inl first ↦ rw first refl
  | inr other ↦ elim (Bool-cases (eqb x 1)) [
    | inl second ↦ rw (other, second) refl
    | inr third ↦ rw (other, third) refl
  ]
]

named-nonempty : (bytes : List ℕ) → 1 ≤ length bytes → 1 ≤ length (codes (named bytes))
unfolding named
named-nonempty [] h = absurd (ground arith)
named-nonempty (x ∷ xs) h = elim (Bool-cases (eqb x 0)) [
  | inl first ↦ rw first (omega arith)
  | inr other ↦ elim (Bool-cases (eqb x 1)) [
    | inl second ↦ rw (other, second) (omega arith)
    | inr third ↦ rw (other, third) (omega arith)
  ]
]

pub toy-IsCrypto : IsCrypto toy
toy-IsCrypto = record {
  verifies = λ seed message. same_bytes_refl (fitted 64 seed);
  signature_size = λ seed message. length-fitted 64 seed;
  hex_inverse = read-spelled;
  base32_alphanumeric = named-alphanumeric;
  base32_nonempty = named-nonempty;
  sha256_size = length-fitted 32;
}

abbrev pub alice_keys : Keypair
alice_keys = record { seed = 0 ∷ [] }

abbrev pub bob_keys : Keypair
bob_keys = record { seed = 1 ∷ [] }

abbrev pub toy_canonical : Envelope → Option Bytes
toy_canonical e = some (e.timestamp ∷ codes e.nonce)

abbrev pub decoded_call : Option Value → Value → Option InvokeRequest
decoded_call none args = none
decoded_call (some v) args =
    Option.map (λ name. record { capability = name; args = args; subscription_token = none })
      (as_str v)

abbrev pub outside : Outside
outside = record {
  crypto = toy;
  canonical = toy_canonical;
  rfc3339 = λ t. some "2026-01-01T00:00:00Z";
  encode_descriptor = λ d. some (text d.instance_id);
  encode_ping = λ p. some (text p.server_time);
  encode_peers = λ r. some (unsigned (length r.peers));
  encode_result = λ r. some r.result;
  decode_peers = λ v. some (record { limit = 10; capability = none });
  decode_invoke = λ v. decoded_call (Json.get v "capability") v;
  decode_descriptor = λ raw. none;
  backend = λ name args. ok (text "done");
  read_file = λ path. if path == "/blobs/bob" then some (1 ∷ []) else none;
  join_path = λ a b. a;
}

abbrev pub weather : CapabilityDecl
weather = record {
  name = "weather";
  description = "";
  schema_in = null;
  schema_out = null;
  mode = free;
  pricing = none;
  tags = [];
  lobe_ids = "meteo" ∷ "elsewhere" ∷ [];
  examples = [];
  disambiguation = none;
  negative_examples = [];
  output_semantic = none;
  version = default_cap_version;
  languages = [];
  countries = [];
}

abbrev pub hidden : CapabilityDecl
hidden = record weather { name = "hidden"; mode = private }

abbrev pub registry : CapabilityRegistry
registry = record {
  by_name =
      ("weather", record { decl = weather; binding = none })
      ∷ ("hidden", record { decl = hidden; binding = none })
      ∷ [];
}

abbrev pub config : NodeConfig
config = record {
  endpoint = some "https://alice";
  alias = some "alice";
  lobe_ids = "meteo" ∷ [];
  verify = default_verify;
  bootstrap_peers = [];
  blobs_dir = some "/blobs/bob";
}

abbrev pub bob_row : PeerRecord
bob_row = record {
  id = "n3:bob";
  endpoint = "https://old";
  alias = some "bobby";
  last_seen = some 1;
  tls_fingerprint = none;
  describe_self_cached = none;
  describe_self_fetched_at = none;
  source = none;
}

abbrev pub alice : Node
alice = record {
  keypair = alice_keys;
  registry = registry;
  lobes = "meteo" ∷ [];
  alias = some "alice";
  config = config;
  nonces = [];
  peers = bob_row ∷ [];
  audit = [];
  blobs = [];
}

abbrev pub noon : ℕ
noon = from_secs 10000

abbrev pub ping_envelope : Envelope
ping_envelope = record {
  sender_id = "n3:bob";
  recipient_id = "n3:alice";
  timestamp = noon;
  nonce = "abc";
  verb = ProtocolVerb.ping;
  payload = null;
  sender_endpoint = some "https://bob";
}

abbrev pub ping_message : SignedMessage
ping_message = record {
  envelope = ping_envelope;
  sender_public_key = 1 ∷ [];
  signature = spelled (fitted 64 (1 ∷ []));
}

abbrev pub no_faults : Faults
no_faults = record {
  nonce_insert = none;
  nonce_prune = none;
  peer_list = none;
  peer_get = none;
  peer_upsert = none;
  audit_write = none;
  blob_get = none;
}

abbrev pub at_time : ℕ → Readings
at_time t = record {
  verified_at = t;
  now = t;
  audited_at = t;
  latency_ms = none;
  reply_nonce = "xyz";
}
