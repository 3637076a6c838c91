-- ===== src/Http/Reading.antt =====
-- The loops over a connection in source/http_server.cpp.
use aim_to_v.Base.{
  ℕ, zero, suc, ◌+◌, ◌<◌, ◌≤◌, ◌≡◌, ◌↔◌, true, false, ◌||◌, ltb, ◌==◌, List, [], ◌∷◌, length,
  List-cases, Bool-cases, inl, inr, arith,
}
use aim_to_v.Sys.{
  Answer, Call, World, returned, undefined, pure, ◌>>=◌, call, emit, undefined_here, nothing,
  read_from, write_to, close,
}
use aim_to_v.Http.{bufsiz, response, read_all, write_all, respond}

abbrev pub sum : List ℕ → ℕ
sum [] = 0
sum (n ∷ ns) = n + sum ns

abbrev pub AllPositive : List ℕ → Type 0
AllPositive [] = Unit
AllPositive (n ∷ ns) = (0 < n) × AllPositive ns

-- The answers of reads that bring these numbers of bytes.
abbrev pub reads : List ℕ → List Answer → List Answer
reads [] rest = rest
reads (n ∷ ns) rest = record nothing { value = n } ∷ reads ns rest

abbrev pub world : List Answer → List (Call × Answer) → World
world answers t = record { answers = answers; trace = t }

-- The reads bring these bytes after `n` earlier ones, and then no more.
module _ (fd : ℕ) (last : Answer) (rest : List Answer)
    (ends : (last.failed || last.value == 0) ≡ true) where
  read_all_overflows :
      (fuel n : ℕ) (ns : List ℕ) (t : List (Call × Answer))
      → AllPositive ns
      → length ns < fuel
      → bufsiz < n + sum ns
      → n ≤ bufsiz
      → (read_all fuel fd n (world (reads ns (last ∷ rest)) t)).0 ≡ undefined
  unfolding read_all ◌>>=◌ call undefined_here
  read_all_overflows zero n ns t p f h k = absurd (omega arith)
  read_all_overflows (suc fuel) n [] t p f h k = absurd (omega arith)
  read_all_overflows (suc fuel) n (x ∷ ns) t p f h k = elim (Bool-cases (ltb bufsiz (n + x))) [
    | inl over ↦ ground (arith, p.0, over)
    | inr within ↦
        let further =
          read_all_overflows fuel (n + x) ns ((read_from fd 8191, record nothing { value = x }) ∷ t)
            p.1 (omega arith) (omega arith) (ground arith) in
        ground (arith, p.0, within, further)
  ]

  read_all_fits :
      (fuel n : ℕ) (ns : List ℕ) (t : List (Call × Answer))
      → AllPositive ns
      → length ns < fuel
      → n + sum ns ≤ bufsiz
      → (read_all fuel fd n (world (reads ns (last ∷ rest)) t)).0 ≡ returned tt
  unfolding read_all ◌>>=◌ call pure
  read_all_fits zero n ns t p f h = absurd (omega arith)
  read_all_fits (suc fuel) n [] t p f h = ground (arith, ends)
  read_all_fits (suc fuel) n (x ∷ ns) t p f h =
      let within : ltb bufsiz (n + x) ≡ false = ground arith in
      let further =
        read_all_fits fuel (n + x) ns ((read_from fd 8191, record nothing { value = x }) ∷ t) p.1
          (omega arith) (omega arith) in
      ground (arith, p.0, within, further)

  -- Reads of positive sizes, followed by one that brings nothing or fails, with a bound above
  -- their number, return exactly where together they bring at most BUFSIZ bytes.
  pub read_all_defined_iff :
      (fuel : ℕ) (ns : List ℕ) (t : List (Call × Answer))
      → AllPositive ns
      → length ns < fuel
      → ((read_all fuel fd 0 (world (reads ns (last ∷ rest)) t)).0 ≡ returned tt)
        ↔ (sum ns ≤ bufsiz)
  read_all_defined_iff fuel ns t p f = elim (Bool-cases (ltb bufsiz (sum ns))) [
    | inl over ↦
        let fails = read_all_overflows fuel 0 ns t p f (ground (arith, over)) (omega arith) in
        (λ r. absurd (ground (arith, fails, r)), λ h. absurd (ground (arith, over)))
    | inr within ↦ (λ r. ground (arith, within), λ h. read_all_fits fuel 0 ns t p f (omega arith))
  ]

-- The answer to a request: the loop writes once, and the connection is closed, whatever the write
-- has brought.
pub respond_writes_once :
    (fuel fd : ℕ) (w : World)
    → 1 < fuel
    → respond fuel fd w ≡ (call (write_to fd response) >>= λ (nwrite : Answer). emit (close fd)) w
unfolding respond write_all ◌>>=◌ call emit pure
respond_writes_once zero fd w h = absurd (omega arith)
respond_writes_once (suc zero) fd w h = absurd (omega arith)
respond_writes_once (suc (suc fuel)) fd w h = elim (List-cases w.answers) [
  | inl e ↦ ground (arith, e)
  | inr (a, rest, e) ↦ elim (Bool-cases (a.failed || ltb a.value (length response))) [
    | inl short ↦ ground (arith, e, short)
    | inr all ↦ ground (arith, e, all)
  ]
]
