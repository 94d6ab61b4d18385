-- ===== src/Shared/WorkerName/Parsed.antt =====
-- packages/shared/src/worker-name.ts: which names the parser accepts, and what it returns for them.
use hashden.Common.{◌≡◌, ◌↔◌, true, List, [], ◌∷◌, Option, none, some, arith}
use hashden.Common.Text.{Text}
use hashden.Shared.Pattern.{split}
use hashden.Shared.WorkerName.{
  Decoded, npub, string, parsed, is_slug, is_pubkey_hex, is_worker_id, normalize_pubkey, npub_data,
  parse_fields, parse_parts, strip_payout, parse_worker_name,
}

abbrev pub optional : Option Text → List Text
optional none = []
optional (some worker_id) = worker_id ∷ []

abbrev pub IsWorkerId : Option Text → Type 0
IsWorkerId none = Unit {0}
IsWorkerId (some worker_id) = is_worker_id worker_id ≡ true

module _ (decode : Text → Option Decoded) where
  -- The parts are a slug, a public key in either form, and perhaps a worker id, all well formed.
  pub record IsRouted (parts : List Text) (slug pubkey : Text) (worker_id : Option Text)
      : Type 0 where
    pub raw : Text
    pub shape : parts ≡ slug ∷ raw ∷ optional worker_id
    pub slug_ok : is_slug slug ≡ true
    pub pubkey_ok : normalize_pubkey decode raw ≡ some pubkey
    pub worker_ok : IsWorkerId worker_id

  npub_data-eq-some :
      (d : Option Decoded) (hex : Text) → npub_data decode d ≡ some hex → d ≡ some (npub hex)
  npub_data-eq-some d hex h = ground arith

  normalize_hex :
      (raw pubkey : Text)
      → ((t hex : Text) → decode t ≡ some (npub hex) → is_pubkey_hex hex ≡ true)
      → normalize_pubkey decode raw ≡ some pubkey
      → is_pubkey_hex pubkey ≡ true
  unfolding normalize_pubkey
  normalize_hex raw pubkey decodes h = ground (arith, decodes raw pubkey)

  parse_fields_sound :
      (slug raw : Text) (given : Option Text) (slug' pubkey : Text) (worker_id : Option Text)
      → parse_fields decode slug raw given ≡ parsed slug' pubkey worker_id
      → (slug ≡ slug')
        × (given ≡ worker_id)
        × (is_slug slug ≡ true)
        × (normalize_pubkey decode raw ≡ some pubkey)
        × IsWorkerId given
  unfolding parse_fields
  parse_fields_sound slug raw none slug' pubkey w h = ground arith
  parse_fields_sound slug raw (some g) slug' pubkey w h = ground arith

  parse_fields_complete :
      (slug raw : Text) (given : Option Text) (pubkey : Text)
      → is_slug slug ≡ true
      → normalize_pubkey decode raw ≡ some pubkey
      → IsWorkerId given
      → parse_fields decode slug raw given ≡ parsed slug pubkey given
  unfolding parse_fields
  parse_fields_complete slug raw none pubkey s k w = ground arith
  parse_fields_complete slug raw (some g) pubkey s k w = ground arith

  parse_parts_sound :
      (parts : List Text) (slug pubkey : Text) (worker_id : Option Text)
      → parse_parts decode parts ≡ parsed slug pubkey worker_id
      → IsRouted parts slug pubkey worker_id
  unfolding parse_parts
  parse_parts_sound [] slug pubkey w h = cc
  parse_parts_sound (a ∷ []) slug pubkey w h = cc
  parse_parts_sound (a ∷ b ∷ []) slug pubkey w h =
      let (s, g, ok_slug, key, ok_worker) = parse_fields_sound a b none slug pubkey w h in
      record {
        raw = b;
        shape = ground arith;
        slug_ok = rw (← s) ok_slug;
        pubkey_ok = key;
        worker_ok = rw (← g) ok_worker;
      }
  parse_parts_sound (a ∷ b ∷ c ∷ []) slug pubkey w h =
      let (s, g, ok_slug, key, ok_worker) = parse_fields_sound a b (some c) slug pubkey w h in
      record {
        raw = b;
        shape = ground arith;
        slug_ok = rw (← s) ok_slug;
        pubkey_ok = key;
        worker_ok = rw (← g) ok_worker;
      }
  parse_parts_sound (a ∷ b ∷ c ∷ d ∷ parts) slug pubkey w h = cc

  pub parse_parts_complete :
      (parts : List Text) (slug pubkey : Text) (worker_id : Option Text)
      → IsRouted parts slug pubkey worker_id
      → parse_parts decode parts ≡ parsed slug pubkey worker_id
  unfolding parse_parts
  parse_parts_complete parts slug pubkey none r =
      rw (r.shape, parse_parts)
        (parse_fields_complete slug r.raw none pubkey r.slug_ok r.pubkey_ok r.worker_ok)
  parse_parts_complete parts slug pubkey (some w) r =
      rw (r.shape, parse_parts)
        (parse_fields_complete slug r.raw (some w) pubkey r.slug_ok r.pubkey_ok r.worker_ok)

  empty_unrouted :
      (slug pubkey : Text) (worker_id : Option Text)
      → IsRouted (strip_payout decode (split b'.' [])) slug pubkey worker_id
      → ⊥
  unfolding strip_payout split
  empty_unrouted slug pubkey none r = cc r.shape
  empty_unrouted slug pubkey (some w) r = cc r.shape

  -- A name is accepted exactly when the parts that are left behind a payout address are a slug, a
  -- public key and perhaps a worker id, all well formed; these are what is returned.
  pub parse_worker_name_iff :
      (name : Text) (slug pubkey : Text) (worker_id : Option Text)
      → (parse_worker_name decode (string name) ≡ parsed slug pubkey worker_id)
        ↔ IsRouted (strip_payout decode (split b'.' name)) slug pubkey worker_id
  unfolding parse_worker_name
  parse_worker_name_iff [] slug pubkey worker_id =
      ((λ h. cc), λ r. absurd (empty_unrouted slug pubkey worker_id r))
  parse_worker_name_iff (c ∷ s) slug pubkey worker_id =
      (parse_parts_sound _ slug pubkey worker_id, parse_parts_complete _ slug pubkey worker_id)

  -- If `nip19.decode` gives public keys as 64 hex digits, so does the parser, in either form.
  pub parse_worker_name-hex :
      (name : Text) (slug pubkey : Text) (worker_id : Option Text)
      → ((t hex : Text) → decode t ≡ some (npub hex) → is_pubkey_hex hex ≡ true)
      → parse_worker_name decode (string name) ≡ parsed slug pubkey worker_id
      → is_pubkey_hex pubkey ≡ true
  parse_worker_name-hex name slug pubkey worker_id decodes h =
      let r = (parse_worker_name_iff name slug pubkey worker_id).0 h in
      normalize_hex r.raw pubkey decodes r.pubkey_ok
