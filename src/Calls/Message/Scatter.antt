-- ===== src/Calls/Message/Scatter.antt =====
-- The bytes of a message stand in the ranges of its vectors, in their order.
use lwt_old.Base.{
  ℕ, ◌+◌, ◌≤◌, ◌≡◌, refl, List, [], ◌∷◌, ◌++◌, map, length, take, drop, update, length-append,
  length-take, length-drop, arith,
}
use lwt_old.Base.Outcome.{ok, bind_ok}
use lwt_old.Jobs.{Mem, blit}
use lwt_old.Jobs.ReadWrite.Laws.{memcpy_string_lem, store_bigarray_lem}
use lwt_old.Calls.Buffers.Laws.{Stored, blit-Stored}
use lwt_old.Calls.Message.{IoVec, Base, in_string, in_bigarray, Vector, cells_of, store_at, scatter}

abbrev pub vector_of : (ℕ → Base) → IoVec → Vector
vector_of kind x = record { base = kind x.buffer; offset = x.offset; len = x.len }

abbrev pub buffer_of : Base → Mem → List ℕ
buffer_of (in_string s) m = m.strings s
buffer_of (in_bigarray b) m = m.bigarrays b

abbrev pub put : Base → List ℕ → Mem → Mem
put (in_string s) buf m = record m { strings = update m.strings s buf }
put (in_bigarray b) buf m = record m { bigarrays = update m.bigarrays b buf }

-- The ranges lie in their buffers.
abbrev pub AllFit : Mem → List Vector → Type 0
AllFit m [] = Unit {0}
AllFit m (v ∷ vs) = (v.offset + v.len ≤ length (buffer_of v.base m)) × AllFit m vs

abbrev pub total : List Vector → ℕ
total [] = 0
total (v ∷ vs) = v.len + total vs

-- From the memory `m` on, each vector in turn has got its part of the bytes into its range, nothing
-- else of its buffer has changed, and no other buffer.
abbrev pub Filled : List Vector → List ℕ → Mem → Mem → Type 0
Filled [] bytes m m' = m' ≡ m
Filled (v ∷ vs) bytes m m' =
    (buf : List ℕ) × Stored (buffer_of v.base m) v.offset (take v.len bytes) buf
    × Filled vs (drop v.len bytes) (put v.base buf m) m'

length-blit :
    (buf : List ℕ) (ofs : ℕ) (bytes : List ℕ)
    → ofs + length bytes ≤ length buf
    → length (blit buf ofs bytes) ≡ length buf
length-blit buf ofs bytes h = omega (
  arith,
  h,
  length-append (take ofs buf) (bytes ++ drop (ofs + length bytes) buf),
  length-append bytes (drop (ofs + length bytes) buf),
  length-append (take ofs buf ++ bytes) (drop (ofs + length bytes) buf),
  length-append (take ofs buf) bytes,
  length-take ofs buf,
  length-drop (ofs + length bytes) buf,
)

length-put :
    (a b : Base) (buf : List ℕ) (m : Mem)
    → length buf ≡ length (buffer_of a m)
    → length (buffer_of b (put a buf m)) ≡ length (buffer_of b m)
length-put (in_string s) (in_string t) buf m h = ground (arith, h)
length-put (in_string s) (in_bigarray c) buf m h = refl
length-put (in_bigarray b) (in_string t) buf m h = refl
length-put (in_bigarray b) (in_bigarray c) buf m h = ground (arith, h)

AllFit-put :
    (a : Base) (buf : List ℕ) (m : Mem) (vs : List Vector)
    → length buf ≡ length (buffer_of a m)
    → AllFit m vs
    → AllFit (put a buf m) vs
AllFit-put a buf m [] h f = tt
AllFit-put a buf m (v ∷ vs) h f =
    (omega (arith, f.0, length-put a v.base buf m h), AllFit-put a buf m vs h f.1)

store_at_lem :
    (v : Vector) (bytes : List ℕ) (m : Mem)
    → v.offset + length bytes ≤ length (buffer_of v.base m)
    → store_at v bytes m ≡ ok tt (put v.base (blit (buffer_of v.base m) v.offset bytes) m)
unfolding store_at
store_at_lem v bytes m h = at v.base h
  where
    at :
        (b : Base)
        → v.offset + length bytes ≤ length (buffer_of b m)
        → store_at (record v { base = b }) bytes m
          ≡ ok tt (put b (blit (buffer_of b m) v.offset bytes) m)
    at (in_string s) h' = memcpy_string_lem s v.offset bytes m h'
    at (in_bigarray c) h' = store_bigarray_lem c v.offset bytes m h'

-- As many bytes as there is room for are stored.
pub scatter-Filled :
    (kind : ℕ → Base) (iovs : List IoVec) (bytes : List ℕ) (m : Mem)
    → AllFit m (map (vector_of kind) iovs)
    → length bytes ≤ total (map (vector_of kind) iovs)
    → (m' : Mem) × (scatter (cells_of kind iovs) bytes m ≡ ok tt m')
      × Filled (map (vector_of kind) iovs) bytes m m'
unfolding scatter
scatter-Filled kind [] [] m f h = (m, refl, refl)
scatter-Filled kind [] (b ∷ bytes) m f h = absurd (omega (arith, h))
scatter-Filled kind (x ∷ iovs) bytes m f h =
    let v = vector_of kind x in
    let old = buffer_of v.base m in
    let part = take v.len bytes in
    let fits : v.offset + length part ≤ length old = omega (arith, f.0, length-take v.len bytes) in
    let new = blit old v.offset part in
    let (m', e, g) =
      scatter-Filled kind iovs (drop v.len bytes) (put v.base new m)
        (AllFit-put v.base new m (map (vector_of kind) iovs) (length-blit old v.offset part fits)
          f.1)
        (omega (arith, h, length-drop v.len bytes)) in
    (
      m',
      bind_ok (store_at v part) (λ _. scatter (cells_of kind iovs) (drop v.len bytes)) m
          (store_at_lem v part m fits) e,
      (new, blit-Stored old v.offset part fits, g),
    )
