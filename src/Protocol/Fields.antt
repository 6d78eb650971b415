-- ===== src/Protocol/Fields.antt =====
-- crates/prism-protocol/src/codec.rs: each `put_*` with its `get_*`.
use Prim.Native.String.{String}
use prism_db.Common.{
  ℕ, ◌≡◌, refl, Bool, true, false, List, [], ◌∷◌, ◌++◌, length, arith, append_assoc, ◌^◌,
  if◌then◌else◌, ltb, ◌<◌,
}
use prism_db.Common.Results.{Result, ok, err}
use prism_db.Common.Bytes.{IsU16, IsU32, IsU64, to_le, from_le, length-to_le, from_le-to_le}
use prism_db.Common.Parsers.{Reads, read_exact-append}
use prism_db.Protocol.Errors.{ProtocolError}
use prism_db.Protocol.Utf8.{is_utf8}
use prism_db.Protocol.Codec.{
  put_u8, put_u32, put_u64, put_raw, put_bytes_u16, put_bytes_u32, put_count, put_bool, take,
  get_u8, get_u16, get_u32, get_u64, get_bool, get_bytes_u16, get_bytes_u32, checked_utf8,
  get_str_u16, get_str_u32,
}
use prism_db.Protocol.Encodes.{Encodes, appends-Encodes}

pub take-append :
    (needed : String) (n : ℕ) (bs : List ℕ) → length bs ≡ n → Reads (take needed n) bs bs
unfolding take
take-append needed n bs h rest = read_exact-append n _ bs rest h

pub guard_ok :
    (n bound : ℕ) (x : List ℕ) (y : ProtocolError) (out' : List ℕ)
    → ◌≡◌ {A = Result ProtocolError (List ℕ)} (if ltb n bound then ok x else err y) (ok out')
    → (n < bound) × (out' ≡ x)
guard_ok n bound x y out' e = ground arith

module _ (needed : String) where
  pub u8-Encodes : (v : ℕ) → Encodes (put_u8 v) (get_u8 needed) v
  unfolding put_u8 get_u8 from_le
  u8-Encodes v =
      appends-Encodes (put_u8 v) (get_u8 needed) v (v ∷ []) (λ out. refl)
        (λ rest. rw (take-append needed 1 (v ∷ []) (omega arith) rest) (ground arith))

  pub u16-Reads : (v : ℕ) → IsU16 v → Reads (get_u16 needed) (to_le 2 v) v
  unfolding get_u16
  u16-Reads v h rest =
      rw (take-append needed 2 (to_le 2 v) (length-to_le 2 v) rest, from_le-to_le 2 v h)

  pub u32-Reads : (v : ℕ) → IsU32 v → Reads (get_u32 needed) (to_le 4 v) v
  unfolding get_u32
  u32-Reads v h rest =
      rw (take-append needed 4 (to_le 4 v) (length-to_le 4 v) rest, from_le-to_le 4 v h)

  pub u32-Encodes : (v : ℕ) → IsU32 v → Encodes (put_u32 v) (get_u32 needed) v
  unfolding put_u32
  u32-Encodes v h =
      appends-Encodes (put_u32 v) (get_u32 needed) v (to_le 4 v) (λ out. refl) (u32-Reads v h)

  pub u64-Encodes : (v : ℕ) → IsU64 v → Encodes (put_u64 v) (get_u64 needed) v
  unfolding put_u64 get_u64
  u64-Encodes v h =
      appends-Encodes (put_u64 v) (get_u64 needed) v (to_le 8 v) (λ out. refl)
        (λ rest. rw (take-append needed 8 (to_le 8 v) (length-to_le 8 v) rest, from_le-to_le 8 v h))

  pub raw-Encodes :
      (n : ℕ) (bytes : List ℕ) → length bytes ≡ n → Encodes (put_raw bytes) (take needed n) bytes
  unfolding put_raw
  raw-Encodes n bytes h =
      appends-Encodes (put_raw bytes) (take needed n) bytes bytes (λ out. refl)
        (take-append needed n bytes h)

  pub bool-Encodes : (v : Bool) → Encodes (put_bool v) (get_bool needed) v
  unfolding put_bool get_bool
  bool-Encodes true = record {
    appended = λ out out' e.
        let (bs, app, reads) = (u8-Encodes 1).appended out out' e in
        (bs, app, λ rest. rw (reads rest));
  }
  bool-Encodes false = record {
    appended = λ out out' e.
        let (bs, app, reads) = (u8-Encodes 0).appended out out' e in
        (bs, app, λ rest. rw (reads rest));
  }

  pub count-Encodes : (field : String) (n : ℕ) → Encodes (put_count field n) (get_u32 needed) n
  unfolding put_count
  count-Encodes field n = record {
    appended = λ out out' e.
        let (fits, app) = guard_ok n (2 ^ 32) _ _ out' e in (to_le 4 n, app, u32-Reads n fits);
  }

  pub bytes_u16-Encodes :
      (field : String) (bytes : List ℕ)
      → Encodes (put_bytes_u16 field bytes) (get_bytes_u16 needed) bytes
  unfolding put_bytes_u16 get_bytes_u16
  bytes_u16-Encodes field bytes = record {
    appended = λ out out' e.
        let (fits, app) = guard_ok (length bytes) (2 ^ 16) _ _ out' e in
        (
          to_le 2 (length bytes) ++ bytes,
          app,
          λ rest.
              rw
                (
                  append_assoc (to_le 2 (length bytes)) bytes rest,
                  u16-Reads (length bytes) fits (bytes ++ rest),
                )
                (take-append needed (length bytes) bytes refl rest),
        );
  }

  pub bytes_u32-Encodes :
      (field : String) (bytes : List ℕ)
      → Encodes (put_bytes_u32 field bytes) (get_bytes_u32 needed) bytes
  unfolding put_bytes_u32 get_bytes_u32
  bytes_u32-Encodes field bytes = record {
    appended = λ out out' e.
        let (fits, app) = guard_ok (length bytes) (2 ^ 32) _ _ out' e in
        (
          to_le 4 (length bytes) ++ bytes,
          app,
          λ rest.
              rw
                (
                  append_assoc (to_le 4 (length bytes)) bytes rest,
                  u32-Reads (length bytes) fits (bytes ++ rest),
                )
                (take-append needed (length bytes) bytes refl rest),
        );
  }

module _ (field : String) where
  checked_utf8-valid :
      (bytes : List ℕ) → is_utf8 bytes ≡ true → Reads (checked_utf8 field bytes) [] bytes
  unfolding checked_utf8
  checked_utf8-valid bytes valid rest = rw valid

  -- The two sides may name the field differently.
  pub str_u16_as-Encodes :
      (written : String) (bytes : List ℕ)
      → is_utf8 bytes ≡ true
      → Encodes (put_bytes_u16 written bytes) (get_str_u16 field) bytes
  unfolding get_str_u16
  str_u16_as-Encodes written bytes valid = record {
    appended = λ out out' e.
        let (bs, app, reads) = (bytes_u16-Encodes field written bytes).appended out out' e in
        (bs, app, λ rest. rw (reads rest) (checked_utf8-valid bytes valid rest));
  }

  pub str_u16-Encodes :
      (bytes : List ℕ)
      → is_utf8 bytes ≡ true
      → Encodes (put_bytes_u16 field bytes) (get_str_u16 field) bytes
  str_u16-Encodes bytes valid = str_u16_as-Encodes field bytes valid

  pub str_u32-Encodes :
      (bytes : List ℕ)
      → is_utf8 bytes ≡ true
      → Encodes (put_bytes_u32 field bytes) (get_str_u32 field) bytes
  unfolding get_str_u32
  str_u32-Encodes bytes valid = record {
    appended = λ out out' e.
        let (bs, app, reads) = (bytes_u32-Encodes field field bytes).appended out out' e in
        (bs, app, λ rest. rw (reads rest) (checked_utf8-valid bytes valid rest));
  }
