-- ===== src/Digest/Message.antt =====
-- The messages of digestwriter/consumer.go and how they are parsed. Decompression and the JSON
-- decoder are parameters; a JSON text is the list of its bytes.
pub mod Account
pub mod Digests
use vuln4shift_backend.Prelude.{
  ℕ, Bool, true, false, not, ◌&&◌, ◌||◌, Option, none, some, List, [], ◌∷◌, nat_beq, if◌then◌else◌,
  Str, codes, ◌==◌, str_eq, Result, ok, err, ◌>>=◌,
}
use vuln4shift_backend.Prelude.GoMap.{GoMap, insert, keys}
use vuln4shift_backend.Strings.{tail}

-- `raw[0] == '"'` and `raw[len(raw)-1] == '"'`; the decoder hands over no empty text.
starts_quoted : Str → Bool
starts_quoted [] = false
starts_quoted (c ∷ s) = nat_beq c b'"'

ends_quoted : Str → Bool
ends_quoted [] = false
ends_quoted (c ∷ []) = nat_beq c b'"'
ends_quoted (c ∷ d ∷ s) = ends_quoted (d ∷ s)

-- `raw[:len(raw)-1]`
but_last : Str → Str
but_last [] = []
but_last (c ∷ []) = []
but_last (c ∷ d ∷ s) = c ∷ but_last (d ∷ s)

-- `AccountNumber.UnmarshalJSON` at the raw message; `none` is its error.
unfoldable pub unmarshal_account : Str → Option Str
unfolding starts_quoted ends_quoted but_last
unmarshal_account raw =
    if raw == codes "null" || raw == codes "\"null\""
    then some []
    else if starts_quoted raw && ends_quoted raw
    then some (but_last (tail raw))
    else if not (starts_quoted raw) && not (ends_quoted raw)
    then some raw
    else none

pub record Container : Type 0 where
  pub image_id : Str

pub record Shape : Type 0 where
  pub init_containers : List Container
  pub containers : List Container

pub record Namespace : Type 0 where
  pub shapes : List Shape

-- `images` maps to JSON that is not read.
pub record Workload : Type 0 where
  pub image_count : ℕ
  pub images : Option (GoMap Str Str)
  pub namespaces : Option (GoMap Str Namespace)

pub record IncomingMessage : Type 0 where
  pub organization : Str
  pub account_number : Str
  pub cluster_name : Str
  pub workload : Option Workload
  pub version : ℕ
  pub request_id : Str

-- The digests as the keys of a map to the empty struct.
abbrev pub DigestSet : Type 0
DigestSet = GoMap Str (Unit {0})

add_images : List Str → DigestSet → DigestSet
add_images [] set = set
add_images (image_id ∷ images) set = add_images images (insert image_id tt set)

add_containers : List Container → DigestSet → DigestSet
add_containers [] set = set
add_containers (c ∷ cs) set = add_containers cs (insert c.image_id tt set)

add_shapes : List Shape → DigestSet → DigestSet
unfolding add_containers
add_shapes [] set = set
add_shapes (s ∷ ss) set =
    add_shapes ss (add_containers s.containers (add_containers s.init_containers set))

add_namespaces : GoMap Str Namespace → DigestSet → DigestSet
unfolding add_shapes
add_namespaces [] set = set
add_namespaces ((name, namespace) ∷ ns) set = add_namespaces ns (add_shapes namespace.shapes set)

-- `extractDigestsFromMessage`, where neither map is nil.
unfoldable pub extract_digests : GoMap Str Str → GoMap Str Namespace → List Str
unfolding add_images add_namespaces
extract_digests images namespaces = keys (add_namespaces namespaces (add_images (keys images) []))

unfoldable pub is_gzip : Str → Bool
is_gzip (a ∷ b ∷ rest) = nat_beq a 31 && nat_beq b 139
is_gzip _ = false

pub data ParseError : Type 0 where
  decompress_failed json_failed empty_org missing_images : ParseError

module _ (gunzip : Str → Option Str) (decode : Str → Option IncomingMessage) where
  unfoldable pub decompress_message : Str → Result ParseError Str
  decompress_message value =
      if is_gzip value
      then elim (gunzip value) [ none ↦ err decompress_failed | some text ↦ ok text ]
      else ok value

  check_message : IncomingMessage → Result ParseError (IncomingMessage × Workload)
  check_message message =
      if message.organization == [] then err empty_org else elim message.workload [
        | none ↦ err missing_images
        | some workload ↦ ok (message, workload)
      ]

  -- With the message its workload, which is no nil pointer behind the checks.
  unfoldable pub parse_message : Str → Result ParseError (IncomingMessage × Workload)
  unfolding decompress_message check_message
  parse_message value = do
    text ← decompress_message value
    elim (decode text) [ none ↦ err json_failed | some message ↦ check_message message ]
