-- ===== src/Xr/Outbox.antt =====
-- src/util/bounded_buffer.h: BoundedBuffer, the bytes that the socket has not taken yet.
use meshcom_loraham_bridge.Prelude.{
  ℕ, ◌+◌, ◌-◌, ◌≤◌, Bool, true, false, List, [], ◌∷◌, ◌++◌, ltb, leb, ◌==◌, if◌then◌else◌, length,
  drop, Bytes, ◌≡◌, ◌⊎◌, ◌≢◌, ◌<◌, inl, inr, refl, sym, ap, ◌∙◌, append-nil, ltb→lt, ltb-false→le,
  ==_iff, arith, ◌↔◌, Bool-cases, length-drop, length-append, drop-append_le, drop-add, drop_all,
}

-- `capacities` holds what `buf_.capacity()` answers in the next calls.
pub record Buffer : Type 0 where
  pub cap : ℕ
  pub buf : Bytes
  pub head : ℕ
  pub capacities : List ℕ

unfoldable pub size : Buffer → ℕ
size o = length o.buf - o.head

-- `data()` with `size()` bytes.
unfoldable pub unsent : Buffer → Bytes
unsent o = drop o.head o.buf

unfoldable pub clear : Buffer → Buffer
clear o = record o { buf = []; head = 0 }

ask_capacity : List ℕ → ℕ × List ℕ
ask_capacity [] = (0, [])
ask_capacity (c ∷ cs) = (c, cs)

compact : Buffer → Buffer
compact o = record o { buf = drop o.head o.buf; head = 0 }

-- `capacity()` is asked only where the first test fails.
unfoldable pub compact_if_needed : ℕ → Buffer → Buffer
unfolding ask_capacity compact size
compact_if_needed incoming o =
    let live = size o in
    let (capacity, rest) = ask_capacity o.capacities in
    let asked = record o { capacities = rest } in
    if o.head == 0
    then o
    else if leb live o.head
    then compact o
    else if ltb capacity (o.head + incoming + live)
    then compact asked
    else asked

unfoldable pub append : Bytes → Buffer → Bool × Buffer
append bytes o =
    if length bytes == 0
    then (true, o)
    else if ltb o.cap (size o + length bytes)
    then (false, o)
    else let o' = compact_if_needed (length bytes) o in (true, record o' { buf = o'.buf ++ bytes })

unfoldable pub consume : ℕ → Buffer → Buffer
consume n o = if leb (size o) n then clear o else record o { head = o.head + n }

-- The front that has been sent is part of what is stored, and the rest is within the capacity.
pub record IsBuffer (o : Buffer) : Type 0 where
  pub front : o.head ≤ length o.buf
  pub fits : size o ≤ o.cap

compact_if_needed_lem :
    (n : ℕ) (o : Buffer)
    → o.head ≤ length o.buf
    → (unsent (compact_if_needed n o) ≡ unsent o)
      × ((compact_if_needed n o).head ≤ length (compact_if_needed n o).buf)
      × ((compact_if_needed n o).cap ≡ o.cap)
unfolding compact_if_needed unsent size
compact_if_needed_lem n o h = ground (arith, length-drop o.head o.buf)

append_empty : (bytes : Bytes) (o : Buffer) → length bytes ≡ 0 → append bytes o ≡ (true, o)
unfolding append
append_empty bytes o e = ground arith

append_full :
    (bytes : Bytes) (o : Buffer)
    → length bytes ≢ 0
    → o.cap < size o + length bytes
    → append bytes o ≡ (false, o)
unfolding append
append_full bytes o ne h = ground arith

append_fits :
    (bytes : Bytes) (o : Buffer)
    → length bytes ≢ 0
    → size o + length bytes ≤ o.cap
    → let o' = compact_if_needed (length bytes) o in
      append bytes o ≡ (true, record o' { buf = o'.buf ++ bytes })
unfolding append
append_fits bytes o ne h = ground arith

length-unsent : (o : Buffer) → length (unsent o) ≡ size o
unfolding unsent size
length-unsent o = length-drop o.head o.buf

-- The bytes behind those that the compaction has moved.
grown_lem :
    (bytes : Bytes) (o : Buffer)
    → o.head ≤ length o.buf
    → let o' : Buffer = record o { buf = o.buf ++ bytes } in
      (unsent o' ≡ unsent o ++ bytes) × (o'.head ≤ length o'.buf)
unfolding unsent
grown_lem bytes o h =
    (drop-append_le o.head o.buf bytes h, omega (arith, length-append o.buf bytes))

nil_append : (bytes : Bytes) (xs : Bytes) → length bytes ≡ 0 → xs ≡ xs ++ bytes
nil_append [] xs e = sym (append-nil xs)
nil_append (b ∷ bytes) xs e = absurd (omega arith)

-- append keeps the representation. It takes all the bytes, behind those not sent yet, exactly where
-- they fit; else nothing changes. The vector's capacity, and so the compaction, makes no difference.
pub append_lem :
    (bytes : Bytes) (o : Buffer)
    → IsBuffer o
    → let (ok, o') = append bytes o in
      IsBuffer o'
      × ((ok ≡ true) ↔ (length bytes ≡ 0) ⊎ (size o + length bytes ≤ o.cap))
      × (unsent o' ≡ (if ok then unsent o ++ bytes else unsent o))
      × (o'.cap ≡ o.cap)
append_lem bytes o v = elim (Bool-cases (length bytes == 0)) [
  | inl e ↦
      let none_new = (==_iff (length bytes) 0).0 e in
      rw (append_empty bytes o none_new)
        (v, ((λ h. inl none_new), (λ h. refl)), nil_append bytes (unsent o) none_new, refl)
  | inr e ↦
      let some_new : length bytes ≢ 0 = λ h. absurd (cc (sym e ∙ (==_iff (length bytes) 0).1 h)) in
      elim (Bool-cases (ltb o.cap (size o + length bytes))) [
        | inl e' ↦
            let over : o.cap < size o + length bytes = ltb→lt _ _ e' in
            rw (append_full bytes o some_new over)
              (v, ((λ h. cc), (λ h. absurd (ground (arith, some_new)))), refl, refl)
        | inr e' ↦
            let room : size o + length bytes ≤ o.cap = ltb-false→le _ _ e' in
            let moved = compact_if_needed (length bytes) o in
            let (same, front, cap) = compact_if_needed_lem (length bytes) o v.front in
            let (grown, front') = grown_lem bytes moved front in
            let o' : Buffer = record moved { buf = moved.buf ++ bytes } in
            let sizes : size o' ≡ size o + length bytes =
              sym (length-unsent o')
              ∙ ap (λ (x : Bytes). length x) (grown ∙ ap (λ (x : Bytes). x ++ bytes) same)
              ∙ length-append (unsent o) bytes
              ∙ ap (λ (k : ℕ). k + length bytes) (length-unsent o) in
            rw (append_fits bytes o some_new room) (
              record { front = front'; fits = omega (arith, sizes, cap) },
              ((λ h. inr room), (λ h. refl)),
              grown ∙ ap (λ (x : Bytes). x ++ bytes) same,
              cap,
            )
      ]
]

-- consume drops what has been sent from the front, and keeps the representation.
pub consume_lem :
    (n : ℕ) (o : Buffer)
    → IsBuffer o
    → IsBuffer (consume n o) × (unsent (consume n o) ≡ drop n (unsent o))
unfolding consume unsent size clear
consume_lem n o v =
    ground
      (arith, drop-add o.head n o.buf, drop_all n (drop o.head o.buf), length-drop o.head o.buf)
