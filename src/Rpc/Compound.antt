-- ===== src/Rpc/Compound.antt =====
-- librpc/xdr.c: the routines for bytes, strings, arrays and pointers. A pointer to memory of the caller
-- is none where it is null, and else what lies there. Whether `mem_alloc` finds a number of bytes is
-- a parameter, and `blank` is an element of zeros.
use hardware_msm7k.Prelude.Words.{add32, mul32}
use hardware_msm7k.Prelude.{
  ℕ, zero, suc, ◌/◌, Bool, false, ltb, ◌==◌, if◌then◌else◌, Option, none, some, List, [], ◌∷◌,
}
use hardware_msm7k.Rpc.{Xdr, Result, done, failed, undefined, ◌>>=◌, Routine, by_op, msgsize_max}
use hardware_msm7k.Rpc.Stream.{send_uint32, send_bytes, recv_uint32, recv_bytes}
use hardware_msm7k.Rpc.Scalars.{xdr_u_int, xdr_bool}

-- An element in front of a list, where there is one.
abbrev pub cons_option : ℕ → Option (List ℕ) → Option (List ℕ)
cons_option b none = none
cons_option b (some bs) = some (b ∷ bs)

-- What is computed from memory, where the memory is there.
abbrev pub held {ℓ} : {A : Type ℓ} → Option A → Xdr → Result A
held none x = undefined
held (some a) x = done a x

-- The first bytes of a buffer, where it has so many.
unfoldable pub first : ℕ → List ℕ → Option (List ℕ)
first zero bs = some []
first (suc n) [] = none
first (suc n) (b ∷ bs) = cons_option b (first n bs)

-- A buffer with bytes stored at its start, where it has room for them.
unfoldable pub overlay : List ℕ → List ℕ → Option (List ℕ)
overlay [] buf = some buf
overlay (b ∷ bs) [] = none
overlay (b ∷ bs) (c ∷ buf) = cons_option b (overlay bs buf)

-- Bytes that are sent from a buffer. The room in the message is tested before the buffer is read.
unfoldable pub send_held : Option (List ℕ) → (cnt : ℕ) → Xdr → Result (List ℕ)
unfolding send_bytes
send_held none cnt x = (if ltb msgsize_max (add32 x.out_next cnt) then failed x else undefined)
send_held (some bs) cnt x = send_bytes bs x

-- `xdr_opaque`
abbrev pub opaque_bytes : (cnt : ℕ) → Routine (List ℕ)
opaque_bytes cnt buf x =
    by_op x.op (send_held (first cnt buf) cnt x >>= λ s y. done buf y)
      (recv_bytes cnt x >>= λ bs y. held (overlay bs buf) y) (done buf x)

unfoldable pub xdr_opaque : (cnt : ℕ) → Routine (List ℕ)
unfolding send_held recv_bytes first overlay
xdr_opaque cnt buf x = (if cnt == 0 then done buf x else opaque_bytes cnt buf x)

-- A buffer with a zero stored at an index.
unfoldable pub end_at : ℕ → List ℕ → Option (List ℕ)
end_at n [] = none
end_at zero (b ∷ bs) = some (0 ∷ bs)
end_at (suc n) (b ∷ bs) = cons_option b (end_at n bs)

-- `strlen`, of bytes that end in a zero.
abbrev pub suc_option : Option ℕ → Option ℕ
suc_option none = none
suc_option (some n) = some (suc n)

unfoldable pub strlen : List ℕ → Option ℕ
strlen [] = none
strlen (zero ∷ bs) = some 0
strlen (suc b ∷ bs) = suc_option (strlen bs)

-- The elements of an array, one after the other. `astray` is what the routine `f` does at a target
-- that is null or not wholly in the memory of the array: it may fail before it touches the target.
unfoldable pub each {ℓ} : {A : Type ℓ} → Routine A → (Xdr → Result {0} Unit) → ℕ → Routine (List A)
each f astray zero vs x = done vs x
each f astray (suc n) [] x = astray x >>= λ u y. each f astray n [] y
each f astray (suc n) (v ∷ vs) x = f v x >>= λ w y. each f astray n vs y >>= λ ws z. done (w ∷ ws) z

-- `xdr_vector`
abbrev pub xdr_vector {ℓ} :
    {A : Type ℓ} → (nelem : ℕ) → Routine A → (Xdr → Result {0} Unit) → Routine (List A)
xdr_vector nelem f astray = each f astray nelem

abbrev pub blanks {ℓ} : {A : Type ℓ} → A → ℕ → List A
blanks a zero = []
blanks a (suc n) = a ∷ blanks a n

module _ (can_alloc : ℕ → Bool) where
  -- `xdr_bytes`, of the buffer at `*cpp` and `*sizep`.
  abbrev pub bytes_into : Option (List ℕ) → ℕ → Xdr → Result (Option (List ℕ) × ℕ)
  bytes_into none size x =
      if can_alloc size then recv_bytes size x >>= (λ bs y. done (some bs, size) y) else failed x
  bytes_into (some buf) size x =
      recv_bytes size x >>= λ bs y. held (overlay bs buf) y >>= λ new z. done (some new, size) z

  abbrev pub bytes_from : Option (List ℕ) → ℕ → Xdr → Result (List ℕ)
  bytes_from none size x = (if size == 0 then send_bytes [] x else send_held none size x)
  bytes_from (some buf) size x = send_held (first size buf) size x

  unfoldable pub xdr_bytes : (maxsize : ℕ) → Routine (Option (List ℕ) × ℕ)
  unfolding send_uint32 recv_uint32 send_held recv_bytes first overlay
  xdr_bytes maxsize (p, size) x =
      by_op x.op
        (send_uint32 size x >>= λ s y.
          if ltb maxsize size then failed y else bytes_from p size y >>= λ bs z. done (p, size) z)
        (recv_uint32 x >>= λ n y.
          if ltb maxsize n then failed y else if n == 0 then done (p, n) y else bytes_into p n y)
        (done (none, size) x)

  -- `xdr_string`, of a buffer that holds the string and its zero.
  abbrev pub string_storage : Option (List ℕ) → (size : ℕ) → Xdr → Result (List ℕ)
  string_storage none size x =
      if can_alloc (add32 size 1) then done (blanks 0 (suc size)) x else failed x
  string_storage (some buf) size x = done buf x

  abbrev pub string_in : (maxsize : ℕ) → Option (List ℕ) → Xdr → Result (Option (List ℕ))
  string_in maxsize p x = xdr_u_int 0 x >>= λ size y.
      if ltb maxsize size
      then failed y
      else if add32 size 1 == 0
      then done p y
      else string_storage p size y
        >>= (λ buf z. held (end_at size buf) z >>= xdr_opaque size >>= λ s w. done (some s) w)

  abbrev pub string_out : (maxsize : ℕ) → Option (List ℕ) → Xdr → Result (Option (List ℕ))
  string_out maxsize none x = failed x
  string_out maxsize (some s) x = held (strlen s) x >>= xdr_u_int >>= λ size y.
      if ltb maxsize size then failed y else xdr_opaque size s y >>= λ t z. done (some s) z

  abbrev pub string_free : (maxsize : ℕ) → Option (List ℕ) → Xdr → Result (Option (List ℕ))
  string_free maxsize none x = done none x
  string_free maxsize (some s) x = held (strlen s) x >>= xdr_u_int >>= λ size y.
      if ltb maxsize size then failed y else done none y

  unfoldable pub xdr_string : (maxsize : ℕ) → Routine (Option (List ℕ))
  unfolding xdr_opaque xdr_u_int strlen end_at
  xdr_string maxsize p x =
      by_op x.op (string_out maxsize p x) (string_in maxsize p x) (string_free maxsize p x)

  module _ {A : Type 0} (blank : A) (f : Routine A) (astray : Xdr → Result {0} Unit) where
    -- `xdr_array`, of the array at `*addrp` and `*sizep`, in elements of `elsize` bytes. The bytes to
    -- allocate are counted in a word.
    abbrev pub allocated : (elsize c : ℕ) → Xdr → Result (Option (List A) × ℕ)
    allocated elsize c x =
        if c == 0
        then done (none, c) x
        else if can_alloc (mul32 c elsize)
        then each f astray c (blanks blank (mul32 c elsize / elsize)) x
          >>= (λ ws y. done (some ws, c) y)
        else failed x

    abbrev pub array_elements :
        (elsize : ℕ) → Option (List A) → ℕ → Xdr → Result (Option (List A) × ℕ)
    array_elements elsize (some vs) c x =
        each f astray c vs x >>= λ ws y. done (by_op y.op (some ws) (some ws) none, c) y
    array_elements elsize none c x =
        by_op x.op (each f astray c [] x >>= λ ws y. done (none, c) y) (allocated elsize c x)
          (done (none, c) x)

    unfoldable pub xdr_array : (maxsize elsize : ℕ) → Routine (Option (List A) × ℕ)
    unfolding xdr_u_int each
    xdr_array maxsize elsize (arr, size) x = xdr_u_int size x >>= λ c y.
        if by_op y.op (ltb maxsize c) (ltb maxsize c) false
        then failed y
        else array_elements elsize arr c y

    -- `xdr_reference`, of an object of `size` bytes.
    unfoldable pub xdr_reference : (size : ℕ) → Routine (Option A)
    xdr_reference size none x =
        by_op x.op (astray x >>= λ u y. done none y)
          (if can_alloc size then f blank x >>= (λ a y. done (some a) y) else failed x)
          (done none x)
    xdr_reference size (some a) x = f a x >>= λ b y. done (by_op y.op (some b) (some b) none) y

    -- `xdr_pointer`
    abbrev pub is_there : Option A → ℕ
    is_there none = 0
    is_there (some a) = 1

    unfoldable pub xdr_pointer : (size : ℕ) → Routine (Option A)
    unfolding xdr_bool xdr_reference
    xdr_pointer size p x = xdr_bool (is_there p) x >>= λ more y.
        if more == 0 then done none y else xdr_reference size p y
