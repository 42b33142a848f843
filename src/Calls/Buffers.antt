-- ===== src/Calls/Buffers.antt =====
-- src/unix/lwt_unix_stubs.c, the operations on bigarrays. The ranges are not checked here: an access
-- out of bounds is undefined.
pub mod Laws
use lwt_old.Base.{ℕ, ◌+◌, leb, if◌then◌else◌, List, length as measure, replicate}
use lwt_old.Base.Outcome.{M, ◌>>=◌, ◌>>◌, gets, undefined}
use lwt_old.Jobs.{Mem, memcpy_string, store_bigarray, slice}

-- `len` bytes of a buffer, which are read before any is stored.
abbrev pub load : List ℕ → ℕ → ℕ → (List ℕ → M Mem (Unit {0})) → M Mem (Unit {0})
load buf ofs len store =
    if leb (ofs + len) (measure buf) then store (slice buf ofs len) else undefined

-- `memmove`, so the ranges may overlap.
pub blit_bytes_bytes : ℕ → ℕ → ℕ → ℕ → ℕ → M Mem (Unit {0})
blit_bytes_bytes buf1 ofs1 buf2 ofs2 len = do
  text ← gets (λ m. m.bigarrays buf1)
  load text ofs1 len (store_bigarray buf2 ofs2)

pub blit_string_bytes : ℕ → ℕ → ℕ → ℕ → ℕ → M Mem (Unit {0})
blit_string_bytes buf1 ofs1 buf2 ofs2 len = do
  text ← gets (λ m. m.strings buf1)
  load text ofs1 len (store_bigarray buf2 ofs2)

pub blit_bytes_string : ℕ → ℕ → ℕ → ℕ → ℕ → M Mem (Unit {0})
blit_bytes_string buf1 ofs1 buf2 ofs2 len = do
  text ← gets (λ m. m.bigarrays buf1)
  load text ofs1 len (memcpy_string buf2 ofs2)

pub fill_bytes : ℕ → ℕ → ℕ → ℕ → M Mem (Unit {0})
fill_bytes buf ofs len byte = store_bigarray buf ofs (replicate len byte)
