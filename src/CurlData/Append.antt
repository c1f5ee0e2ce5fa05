-- ===== src/CurlData/Append.antt =====
-- tgapi_curl_write (lib/tgapi.c) appends, and keeps the text ended by a NUL inside the buffer.
use mathlib.Core.Path.{subst}
use gnuweeb_bot.Common.{
  ℕ, suc, ◌+◌, ◌-◌, ◌*◌, ◌%◌, ◌<◌, ◌≡◌, refl, sym, ap, ◌∙◌, true, none, some, List, [], ◌∷◌, ◌++◌,
  ltb, set, length, length-append, replicate, length-replicate, set-behind, arith, Bool-cases, inl,
  inr, append_assoc, append-nil,
}
use gnuweeb_bot.CurlData.{
  CurlData, size_mod, copy_at, store_bytes, grow_and_store, write_to, tgapi_curl_write,
}

-- The buffer holds a text of these bytes: nothing yet, or the bytes, a NUL, and a rest.
pub data Text (d : CurlData) (bytes : List ℕ) : Type 0 where
  unborn : d.data' ≡ none → d.len ≡ 0 → bytes ≡ [] → Text d bytes
  written :
      (rest : List ℕ)
      → d.data' ≡ some (bytes ++ 0 ∷ rest)
      → d.len ≡ length bytes
      → d.allocated ≡ length (bytes ++ 0 ∷ rest)
      → Text d bytes

-- A copy into free space: what is left of it stays behind the bytes.
copy_at_behind :
    (bytes left space : List ℕ)
    → length bytes < length space
    → (x : ℕ) × (rest : List ℕ) × (copy_at (left ++ space) (length left) bytes
        ≡ (left ++ bytes) ++ x ∷ rest)
      × (length bytes + suc (length rest) ≡ length space)
copy_at_behind [] left [] h = absurd (omega arith)
copy_at_behind [] left (x ∷ rest) h = (x, rest, rw (append-nil left) refl, omega arith)
copy_at_behind (b ∷ bytes) left [] h = absurd (omega arith)
copy_at_behind (b ∷ bytes) left (y ∷ space) h =
    let longer : length left + 1 ≡ length (left ++ b ∷ []) =
      omega (arith, length-append left (b ∷ [])) in
    let moved : left ++ b ∷ space ≡ (left ++ b ∷ []) ++ space =
      sym (append_assoc left (b ∷ []) space) in
    let (x, rest, e, n) = copy_at_behind bytes (left ++ b ∷ []) space (omega arith) in
    (
      x,
      rest,
      ap (λ (l : List ℕ). copy_at l (length left + 1) bytes) (set-behind left space y b ∙ moved)
          ∙ ap (λ (i : ℕ). copy_at ((left ++ b ∷ []) ++ space) i bytes) longer
          ∙ e
          ∙ ap (λ (l : List ℕ). l ++ x ∷ rest) (append_assoc left (b ∷ []) bytes),
      omega arith,
    )

module _ (junk : ℕ) where
  -- With room for the bytes and the NUL they are stored behind the text.
  store_bytes-Text :
      (d : CurlData) (bytes ptr space : List ℕ)
      → d.len ≡ length bytes
      → d.allocated ≡ length (bytes ++ space)
      → length ptr < length space
      → length bytes + length ptr < size_mod
      → ((store_bytes true junk d (bytes ++ space) ptr).0 ≡ length ptr)
        × Text (store_bytes true junk d (bytes ++ space) ptr).1 (bytes ++ ptr)
  unfolding store_bytes
  store_bytes-Text d bytes ptr space at size room fits =
      let (x, rest, e, n) = copy_at_behind ptr bytes space room in
      let whole : (d.len + length ptr) % size_mod ≡ length (bytes ++ ptr) =
        omega (arith, length-append bytes ptr) in
      let copied : copy_at (bytes ++ space) d.len ptr ≡ (bytes ++ ptr) ++ x ∷ rest =
        ap (λ (i : ℕ). copy_at (bytes ++ space) i ptr) at ∙ e in
      (
        refl,
        written rest
            (ap some (
              ap (λ (i : ℕ). set (copy_at (bytes ++ space) d.len ptr) i 0) whole
              ∙ ap (λ (l : List ℕ). set l (length (bytes ++ ptr)) 0) copied
              ∙ set-behind (bytes ++ ptr) rest x 0))
            whole
            (omega (
              arith,
              size,
              n,
              length-append bytes space,
              length-append bytes ptr,
              length-append (bytes ++ ptr) (0 ∷ rest),
            )),
      )

  grow_and_store-Text :
      (d : CurlData) (bytes ptr space : List ℕ)
      → d.len ≡ length bytes
      → d.allocated ≡ length (bytes ++ space)
      → d.allocated * 2 + d.len + length ptr + 1 < size_mod
      → ((grow_and_store true junk d (bytes ++ space) ptr).0 ≡ length ptr)
        × Text (grow_and_store true junk d (bytes ++ space) ptr).1 (bytes ++ ptr)
  unfolding grow_and_store
  grow_and_store-Text d bytes ptr space at size fits =
      let new_len : ℕ = (d.len + length ptr + 1) % size_mod in
      let new : ℕ = (d.allocated * 2 % size_mod + new_len) % size_mod in
      let more : List ℕ = space ++ replicate (new - d.allocated) junk in
      let grown : (bytes ++ space) ++ replicate (new - d.allocated) junk ≡ bytes ++ more =
        append_assoc bytes space (replicate (new - d.allocated) junk) in
      elim (Bool-cases (ltb d.allocated new_len)) [
        | inl small ↦
            rw (small, grown)
              (store_bytes-Text (record d { allocated = new }) bytes ptr more at
                (omega (
                  arith,
                  size,
                  length-append bytes more,
                  length-append bytes space,
                  length-append space (replicate (new - d.allocated) junk),
                  length-replicate (new - d.allocated) junk,
                ))
                (omega (
                  arith,
                  size,
                  length-append bytes space,
                  length-append space (replicate (new - d.allocated) junk),
                  length-replicate (new - d.allocated) junk,
                ))
                (omega arith))
        | inr large ↦ rw large (
            store_bytes-Text d bytes ptr space at size (ground (arith, length-append bytes space))
              (omega arith))
      ]

  -- Where memory is found and sizes stay below `2 ^ 64`, tgapi_curl_write takes all its bytes, and
  -- the buffer then holds the text before with the bytes behind it, ended by a NUL, all inside what
  -- is allocated.
  pub tgapi_curl_write-Text :
      (d : CurlData) (bytes ptr : List ℕ)
      → Text d bytes
      → (d.allocated + 4096) * 2 + d.len + length ptr + 1 < size_mod
      → ((tgapi_curl_write true junk ptr d).0 ≡ length ptr)
        × Text (tgapi_curl_write true junk ptr d).1 (bytes ++ ptr)
  unfolding tgapi_curl_write write_to
  tgapi_curl_write-Text d bytes ptr (unborn empty at none_yet) fits =
      subst
        (λ o.
          ((write_to true junk ptr d o).0 ≡ length ptr)
          × Text (write_to true junk ptr d o).1 (bytes ++ ptr))
        (sym empty)
        (subst
          (λ (text : List ℕ).
            ((write_to true junk ptr d none).0 ≡ length ptr)
            × Text (write_to true junk ptr d none).1 (text ++ ptr))
          (sym none_yet)
          (grow_and_store-Text (record d { allocated = 4096 }) [] ptr (replicate 4096 junk) at
            (sym (length-replicate 4096 junk)) (omega arith)))
  tgapi_curl_write-Text d bytes ptr (written rest holds at size) fits =
      subst
        (λ o.
          ((write_to true junk ptr d o).0 ≡ length ptr)
          × Text (write_to true junk ptr d o).1 (bytes ++ ptr))
        (sym holds) (grow_and_store-Text d bytes ptr (0 ∷ rest) at size (omega arith))
