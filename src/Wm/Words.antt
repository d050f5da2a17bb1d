-- ===== src/Wm/Words.antt =====
-- Words in memory, and the header of a message (kernel/include/fs/dev/dev_wm.h).
use saynaa_os.Prelude.{ℕ, ◌+◌, ◌*◌, ◌/◌, ◌%◌, ◌<◌, ◌≡◌, refl, List, ◌++◌, arith, length}
use saynaa_os.Wm.{u32, word_bytes, word_at, hdr_bytes, hdr_size}

word_sum :
    (v : ℕ)
    → v < u32
    → v % 256 + v / 256 % 256 * 256 + v / 65536 % 256 * 65536 + v / 16777216 % 256 * 16777216 ≡ v
word_sum v h = omega arith

-- The three words of a header, wherever it stands in front.
pub word_at-hdr_bytes :
    (src type len : ℕ) (rest : List ℕ)
    → src < u32
    → type < u32
    → len < u32
    → (word_at (hdr_bytes src type len ++ rest) 0 ≡ src)
      × (word_at (hdr_bytes src type len ++ rest) 4 ≡ type)
      × (word_at (hdr_bytes src type len ++ rest) 8 ≡ len)
unfolding word_at hdr_bytes word_bytes
word_at-hdr_bytes src type len rest hs ht hl = (word_sum src hs, word_sum type ht, word_sum len hl)

pub length-hdr_bytes : (src type len : ℕ) → length (hdr_bytes src type len) ≡ hdr_size
unfolding hdr_bytes word_bytes
length-hdr_bytes src type len = refl
