-- ===== src/Cocgi/Header.antt =====
-- The record header of cocgi/fastcgi.cpp.
use fastcgi_async_or_corouti.Base.{
  ℕ, ◌^◌, ◌<◌, ◌≡◌, ◌++◌, [], ◌∷◌, Bytes, get_or, length, take, get_or-take, ◌≤◌, arith, refl,
}
use fastcgi_async_or_corouti.Endian.{hton16, load16, store16, load16-hton16}

pub record RecordHeader : Type 0 where
  pub version : ℕ
  pub type : ℕ
  pub id : ℕ
  pub content_length : ℕ
  pub padding : ℕ
  pub unused : ℕ

-- sizeof(FcgiRecordHeader)
abbrev pub record_header : ℕ
record_header = 8

-- `memcpy(&header, p, kRecordHeader)`, and `ntoh16` of the two 16-bit fields.
unfoldable pub load_header : Bytes → RecordHeader
load_header p = record {
  version = get_or p 0 0;
  type = get_or p 1 0;
  id = hton16 (load16 (get_or p 2 0) (get_or p 3 0));
  content_length = hton16 (load16 (get_or p 4 0) (get_or p 5 0));
  padding = get_or p 6 0;
  unused = get_or p 7 0;
}

-- `append(&header, kRecordHeader)`: the struct as it lies in memory.
unfoldable pub store_header : RecordHeader → Bytes
store_header h =
    h.version ∷ h.type ∷ (store16 h.id ++ (store16 h.content_length ++ (h.padding ∷ h.unused ∷ [])))

pub length-store_header : (h : RecordHeader) → length (store_header h) ≡ 8
unfolding store_header
length-store_header h = refl

-- A header whose 16-bit fields were put in network order is read back, whatever follows it.
pub load_header-store_header :
    (version type id len padding unused : ℕ) (rest : Bytes)
    → id < 2 ^ 16
    → len < 2 ^ 16
    → load_header (
        store_header (record {
          version = version;
          type = type;
          id = hton16 id;
          content_length = hton16 len;
          padding = padding;
          unused = unused;
        })
        ++ rest)
      ≡ record {
        version = version;
        type = type;
        id = id;
        content_length = len;
        padding = padding;
        unused = unused;
      }
unfolding load_header store_header
load_header-store_header version type id len padding unused rest hid hlen =
    ground (arith, load16-hton16 id, load16-hton16 len)

-- The header is read from the first eight bytes.
pub load_header-take :
    (xs : Bytes) → record_header ≤ length xs → load_header (take record_header xs) ≡ load_header xs
unfolding load_header
load_header-take xs h =
    rw
      (
        get_or-take 8 0 xs 0 (omega arith) h,
        get_or-take 8 1 xs 0 (omega arith) h,
        get_or-take 8 2 xs 0 (omega arith) h,
        get_or-take 8 3 xs 0 (omega arith) h,
        get_or-take 8 4 xs 0 (omega arith) h,
        get_or-take 8 5 xs 0 (omega arith) h,
        get_or-take 8 6 xs 0 (omega arith) h,
        get_or-take 8 7 xs 0 (omega arith) h,
      )
      refl
