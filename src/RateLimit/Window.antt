-- ===== src/RateLimit/Window.antt =====
-- The sliding window lets at most `limit` requests through in any window, wherever it begins.
use feed_system_golang.Base.{
  ℕ, ◌+◌, ◌≤◌, ◌≡◌, refl, sym, ap, ◌∙◌, inl, inr, String, str_eq, Bool, true, false, ◌&&◌, ◌||◌,
  List, [], ◌∷◌, length, select, All, ltb, leb, if◌then◌else◌, Bool-cases, arith,
}
use feed_system_golang.RateLimit.Script.{ZSet, Request, sliding_script, admitted}

-- How many times pass a test.
abbrev pub count_times : (ℕ → Bool) → List ℕ → ℕ
count_times p l = length (select p l)

-- `t` is in the window that ends at `e`: after `e - window`, and not after `e`.
abbrev pub in_window : ℕ → ℕ → ℕ → Bool
in_window window e t = leb t e && ltb e (t + window)

module _ {S : Type 0} (z : ZSet S) (window : ℕ) where
  -- What Redis documents of the commands. The last law is the expiry: the key lives for the time
  -- that `PEXPIRE` gave it, so what it drops is older than the window.
  pub record ZSetLaws : Type 0 where
    pub zcard-count : (s : S) → z.zcard s ≡ z.count (λ _. true) s
    pub count-remove :
        (p : ℕ → Bool) (now : ℕ) (s : S)
        → z.count p (z.remove_until now window s) ≡ z.count (λ y. ltb now (y + window) && p y) s
    pub count-zadd :
        (p : ℕ → Bool) (t : ℕ) (m : String) (s : S)
        → z.has m s ≡ false
        → z.count p (z.zadd t m s) ≡ (if p t then 1 else 0) + z.count p s
    pub count-pexpire : (p : ℕ → Bool) (s : S) → z.count p (z.pexpire window s) ≡ z.count p s
    pub count-at_time :
        (p : ℕ → Bool) (now : ℕ) (s : S)
        → z.count (λ y. ltb now (y + window) && p y) (z.at_time now s)
          ≡ z.count (λ y. ltb now (y + window) && p y) s
    pub has-remove :
        (m : String) (now : ℕ) (s : S)
        → z.has m s ≡ false
        → z.has m (z.remove_until now window s) ≡ false
    pub has-zadd :
        (m : String) (t : ℕ) (m' : String) (s : S)
        → z.has m (z.zadd t m' s) ≡ (str_eq m' m || z.has m s)
    pub has-pexpire : (m : String) (s : S) → z.has m (z.pexpire window s) ≡ z.has m s
    pub has-at_time :
        (m : String) (now : ℕ) (s : S) → z.has m s ≡ false → z.has m (z.at_time now s) ≡ false

  -- No clock goes back, and no member comes twice.
  abbrev pub Ascending : ℕ → List Request → Type 0
  Ascending t [] = Unit {0}
  Ascending t (r ∷ rs) = (t ≤ r.now) × Ascending r.now rs

  abbrev pub Fresh : List Request → S → Type 0
  Fresh [] s = Unit {0}
  Fresh (r ∷ rs) s =
      (z.has r.member s ≡ false)
      × All (λ (q : Request). str_eq r.member q.member ≡ false) rs
      × Fresh rs s

  Fresh-kept :
      (rs : List Request) (s after : S)
      → ((m : String) → z.has m s ≡ false → z.has m after ≡ false)
      → Fresh rs s
      → Fresh rs after
  Fresh-kept [] s after k f = tt
  Fresh-kept (r ∷ rs) s after k (new, other, rest) =
      (k r.member new, other, Fresh-kept rs s after k rest)

  Fresh-added :
      (r : Request) (rs : List Request) (s after : S)
      → ((m : String) → z.has m after ≡ (str_eq r.member m || z.has m s))
      → All (λ (q : Request). str_eq r.member q.member ≡ false) rs
      → Fresh rs s
      → Fresh rs after
  Fresh-added r [] s after k o f = tt
  Fresh-added r (q ∷ rs) s after k (o, os) (new, other, rest) =
      (ground (arith, k q.member), other, Fresh-added r rs s after k os rest)

count_times-cons :
    (p : ℕ → Bool) (t : ℕ) (l : List ℕ)
    → count_times p (t ∷ l) ≡ (if p t then 1 else 0) + count_times p l
count_times-cons p t l = ground arith

count_times-le :
    (p q : ℕ → Bool) (l : List ℕ)
    → ((t : ℕ) → p t ≡ true → q t ≡ true)
    → count_times p l ≤ count_times q l
count_times-le p q [] h = omega arith
count_times-le p q (t ∷ l) h = ground (arith, h t, count_times-le p q l h)

count_times_same :
    (p q : ℕ → Bool) (l : List ℕ) → ((t : ℕ) → p t ≡ q t) → count_times p l ≡ count_times q l
count_times_same p q [] h = refl
count_times_same p q (t ∷ l) h = ground (arith, h t, count_times_same p q l h)

-- What the script keeps of the key tells the times let through so far, as far as they still matter.
module _ {S : Type 0} (z : ZSet S) (window limit : ℕ) (laws : ZSetLaws z window) where
  abbrev pub Agree : ℕ → List ℕ → S → Type 0
  Agree from past s =
      (p : ℕ → Bool) (now : ℕ)
      → from ≤ now
      → z.count (λ y. ltb now (y + window) && p y) s
        ≡ count_times (λ y. ltb now (y + window) && p y) past

  abbrev pub Sparse : List ℕ → Type 0
  Sparse past = (t : ℕ) → count_times (in_window window t) past ≤ limit

  abbrev kept_at : ℕ → S → S
  kept_at now s = z.remove_until now window (z.at_time now s)

  count-kept :
      (from now : ℕ) (past : List ℕ) (s : S) (p : ℕ → Bool)
      → Agree from past s
      → from ≤ now
      → z.count p (kept_at now s) ≡ count_times (λ y. ltb now (y + window) && p y) past
  count-kept from now past s p agree le =
      laws.count-remove p now (z.at_time now s) ∙ laws.count-at_time p now s ∙ agree p now le

  Agree-kept :
      (from now : ℕ) (past : List ℕ) (s : S)
      → Agree from past s
      → from ≤ now
      → Agree now past (kept_at now s)
  Agree-kept from now past s agree le p later le' =
      count-kept from now past s (λ y. ltb later (y + window) && p y) agree le
      ∙ count_times_same (λ y. ltb now (y + window) && (ltb later (y + window) && p y))
          (λ y. ltb later (y + window) && p y) past (λ y. ground arith)

  Agree-added :
      (now : ℕ) (member : String) (past : List ℕ) (s : S)
      → z.has member s ≡ false
      → Agree now past s
      → Agree now (now ∷ past) (z.pexpire window (z.zadd now member s))
  Agree-added now member past s new agree p later le =
      let young : ℕ → Bool = λ y. ltb later (y + window) && p y in
      laws.count-pexpire young (z.zadd now member s)
      ∙ laws.count-zadd young now member s new
      ∙ ap (λ n. (if young now then 1 else 0) + n) (agree p later le)
      ∙ sym (count_times-cons young now past)

  Sparse-added :
      (from now : ℕ) (past : List ℕ) (s : S)
      → Agree from past s
      → from ≤ now
      → ltb (z.zcard (kept_at now s)) limit ≡ true
      → Sparse past
      → Sparse (now ∷ past)
  Sparse-added from now past s agree le room sparse t =
      let younger = count_times-le (in_window window t) (λ y. ltb now (y + window) && true) past in
      ground (
        arith,
        younger,
        sparse t,
        count_times-cons (in_window window t) now past,
        laws.zcard-count (kept_at now s),
        count-kept from now past s (λ _. true) agree le,
      )

  admitted_when :
      (r : Request) (rs : List Request) (s : S) (room : Bool)
      → ltb (z.zcard (kept_at r.now s)) limit ≡ room
      → admitted z window limit (r ∷ rs) s ≡ (
          if room
          then r.now
            ∷ admitted z window limit rs
                (z.pexpire window (z.zadd r.now r.member (kept_at r.now s)))
          else admitted z window limit rs (kept_at r.now s))
  unfolding admitted sliding_script
  admitted_when r rs s true h = rw h
  admitted_when r rs s false h = rw h

  admitted-Sparse :
      (rs : List Request) (from : ℕ) (past : List ℕ) (s : S)
      → Ascending z window from rs
      → Fresh z window rs s
      → Agree from past s
      → Sparse past
      → (t : ℕ)
      → count_times (in_window window t) (admitted z window limit rs s)
          + count_times (in_window window t) past
        ≤ limit
  unfolding admitted
  admitted-Sparse [] from past s asc fresh agree sparse t = ground (arith, sparse t)
  admitted-Sparse (r ∷ rs) from past s (le, asc) (new, others, fresh) agree sparse t =
      let kept = kept_at r.now s in
      let added = z.pexpire window (z.zadd r.now r.member kept) in
      let held : (m : String) → z.has m s ≡ false → z.has m kept ≡ false =
        λ m n. laws.has-remove m r.now (z.at_time r.now s) (laws.has-at_time m r.now s n) in
      let kept_agrees = Agree-kept from r.now past s agree le in
      let kept_fresh = Fresh-kept z window rs s kept held fresh in
      elim (Bool-cases (ltb (z.zcard kept) limit)) [
        | inl room ↦
            let rest =
              admitted-Sparse rs r.now (r.now ∷ past) added asc
                (Fresh-added z window r rs kept added
                  (λ m.
                    laws.has-pexpire m (z.zadd r.now r.member kept)
                    ∙ laws.has-zadd m r.now r.member kept)
                  others kept_fresh)
                (Agree-added r.now r.member past kept (held r.member new) kept_agrees)
                (Sparse-added from r.now past s agree le room sparse) t in
            ground (
              arith,
              admitted_when r rs s true room,
              rest,
              count_times-cons (in_window window t) r.now past,
              count_times-cons (in_window window t) r.now (admitted z window limit rs added),
            )
        | inr full ↦
            let rest = admitted-Sparse rs r.now past kept asc kept_fresh kept_agrees sparse t in
            ground (arith, admitted_when r rs s false full, rest)
      ]

-- From an empty key, requests whose clocks do not go back and whose members differ: however they
-- lie in time, no window holds more than `limit` of those let through.
pub sliding_limited :
    {S : Type 0} (z : ZSet S) (window limit : ℕ)
    → ZSetLaws z window
    → (empty : S) → ((p : ℕ → Bool) → z.count p empty ≡ 0)
    → (from : ℕ) (rs : List Request) → Ascending z window from rs
    → Fresh z window rs empty
    → (t : ℕ) → count_times (in_window window t) (admitted z window limit rs empty) ≤ limit
sliding_limited z window limit laws empty none_in from rs asc fresh t = ground (
  arith,
  admitted-Sparse z window limit laws rs from [] empty asc fresh
      (λ p now le. none_in (λ y. ltb now (y + window) && p y)) (λ t. omega arith) t,
)
