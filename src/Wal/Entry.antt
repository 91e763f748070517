-- ===== src/Wal/Entry.antt =====
-- The entry of pkg/wal/wal.go: the header and payload that Write puts down and that the two
-- scanning loops read back.
use observe_x.Prelude.{
  ℕ, ◌+◌, ◌≤◌, ◌<◌, ◌≡◌, refl, ap, ◌∙◌, not, ◌||◌, Option, none, some, List, ◌++◌, append_assoc,
  arith, length, take, drop, length-append, take-append, ltb, ◌==◌, if◌then◌else◌,
}
use observe_x.Wal.Bytes.{
  u32_mod, u64_mod, put_u32, get_u32, put_u64, get_u64, get-put_u32, get-put_u64, crc32,
  crc32_bound,
}

-- 0xCAFE0001
abbrev pub log_magic : ℕ
log_magic = 3405643777

abbrev pub log_header_size : ℕ
log_header_size = 20

-- The timestamp is the bit pattern of an int64.
pub record Entry : Type 0 where
  pub timestamp : ℕ
  pub payload : List ℕ

unfoldable pub encode_entry : Entry → List ℕ
encode_entry e =
    put_u32 log_magic
    ++ (put_u32 (length e.payload)
        ++ (put_u32 (crc32 e.payload) ++ (put_u64 e.timestamp ++ e.payload)))

-- The body of both loops at `rest = data[off:]`: what the entry there takes up, and the entry; `none`
-- where the loop stops.
unfoldable pub decode_entry : List ℕ → Option (ℕ × Entry)
decode_entry rest =
    if ltb (length rest) log_header_size
    then none
    else if not (get_u32 rest == log_magic)
    then none
    else let len = get_u32 (drop 4 rest) in
      if len == 0 || ltb (length rest) (log_header_size + len)
      then none
      else let payload = take len (drop 20 rest) in
        if not (crc32 payload == get_u32 (drop 8 rest))
        then none
        else some (
          log_header_size + len,
          record { timestamp = get_u64 (drop 12 rest); payload = payload },
        )

-- What Write puts down and the loops read back.
pub record IsValid (e : Entry) : Type 0 where
  pub nonempty : 0 < length e.payload
  pub short : length e.payload < u32_mod
  pub stamped : e.timestamp < u64_mod

pub length-encode_entry : (e : Entry) → length (encode_entry e) ≡ log_header_size + length e.payload
unfolding encode_entry put_u32 put_u64
length-encode_entry e = omega arith

-- What the fields at fixed offsets must hold for the bytes to decode to `e`.
record Reads (r : List ℕ) (e : Entry) : Type 0 where
  room : log_header_size + length e.payload ≤ length r
  magic : get_u32 r ≡ log_magic
  len : get_u32 (drop 4 r) ≡ length e.payload
  crc : get_u32 (drop 8 r) ≡ crc32 e.payload
  stamp : get_u64 (drop 12 r) ≡ e.timestamp
  body : take (length e.payload) (drop 20 r) ≡ e.payload

decode_entry-Reads :
    (r : List ℕ) (e : Entry)
    → IsValid e
    → Reads r e
    → decode_entry r ≡ some (log_header_size + length e.payload, e)
unfolding decode_entry
decode_entry-Reads r e v h =
    rw (h.len, h.magic, h.crc, h.body, h.stamp) (ground (arith, v.nonempty, h.room))

module _ (e : Entry) (rest : List ℕ) where
  tail_12 : List ℕ
  tail_12 = put_u64 e.timestamp ++ (e.payload ++ rest)

  tail_8 : List ℕ
  tail_8 = put_u32 (crc32 e.payload) ++ tail_12

  tail_4 : List ℕ
  tail_4 = put_u32 (length e.payload) ++ tail_8

  encode_entry-split : encode_entry e ++ rest ≡ put_u32 log_magic ++ tail_4
  unfolding encode_entry tail_4 tail_8 tail_12
  encode_entry-split = simp append_assoc

  drop-tail_4 : drop 4 (put_u32 log_magic ++ tail_4) ≡ tail_4
  unfolding put_u32
  drop-tail_4 = refl

  drop-tail_8 : drop 8 (put_u32 log_magic ++ tail_4) ≡ tail_8
  unfolding put_u32 tail_4
  drop-tail_8 = refl

  drop-tail_12 : drop 12 (put_u32 log_magic ++ tail_4) ≡ tail_12
  unfolding put_u32 tail_4 tail_8
  drop-tail_12 = refl

  drop-payload : drop 20 (put_u32 log_magic ++ tail_4) ≡ e.payload ++ rest
  unfolding put_u32 put_u64 tail_4 tail_8 tail_12
  drop-payload = refl

  -- What Write puts down for a valid entry reads back as that entry, whatever follows it. Valid is an entry whose payload is not empty and is shorter than 2^32, and whose timestamp is below 2^64.
  pub decode-encode_entry :
      IsValid e
      → decode_entry (encode_entry e ++ rest) ≡ some (log_header_size + length e.payload, e)
  unfolding tail_4 tail_8 tail_12
  decode-encode_entry v = rw encode_entry-split (decode_entry-Reads _ e v reads)
    where
      reads : Reads (put_u32 log_magic ++ tail_4) e
      reads = record {
        room = omega (
          arith,
          ap length encode_entry-split,
          length-append (encode_entry e) rest,
          length-encode_entry e,
        );
        magic = get-put_u32 log_magic tail_4 (omega arith);
        len = ap get_u32 drop-tail_4 ∙ get-put_u32 (length e.payload) tail_8 v.short;
        crc =
            ap get_u32 drop-tail_8 ∙ get-put_u32 (crc32 e.payload) tail_12 (crc32_bound e.payload);
        stamp = ap get_u64 drop-tail_12 ∙ get-put_u64 e.timestamp (e.payload ++ rest) v.stamped;
        body = ap (take (length e.payload)) drop-payload ∙ take-append e.payload rest;
      }
