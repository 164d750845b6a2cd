-- ===== src/Stdin/Read.antt =====
-- dev_stdin_read of lab8/kern/fs/devs/dev_stdin.c on the sequence of unread characters.
use nku_os_ucore.Common.{
  ℕ, zero, suc, ◌+◌, ◌≤◌, ◌<◌, ◌≡◌, refl, sym, ap, ◌∙◌, subst, Bool, true, false, Bool-cases, ◌==◌,
  ltb, if◌then◌else◌, inl, inr, arith, List, [], ◌∷◌, ◌++◌, append_assoc, append-nil, length,
  length-append, All,
}
use nku_os_ucore.Stdin.{
  Stdin, Sleep, Next, got, stopped, asleep, Reading, ended, waits, stored, char_at, write_all,
  next_char, read_loop, dev_stdin_read,
}
use nku_os_ucore.Stdin.Buffer.{Unread, arrive, heard_all, write_all-Unread}

-- The characters that a list of key strokes puts into the buffer.
abbrev pub keys : List (ℕ × Bool) → List ℕ
keys [] = []
keys ((c, e) ∷ es) = if c == 0 then keys es else c ∷ keys es

abbrev pub all_keys : List Sleep → List ℕ
all_keys [] = []
all_keys (e ∷ es) = keys e.typed ++ all_keys es

arrive-append : (c : ℕ) (cs : List ℕ) → length cs < 4096 → arrive c cs ≡ cs ++ (c ∷ [])
arrive-append c [] h = refl
arrive-append c (x ∷ cs) h = rw (lt_ltb (length (x ∷ cs)) h) refl
  where
    lt_ltb : (n : ℕ) → n < 4096 → ltb n 4096 ≡ true
    lt_ltb n h = ground arith

-- While there is room, nothing is lost.
heard_all-keys :
    (es : List (ℕ × Bool)) (cs : List ℕ)
    → length cs + length (keys es) ≤ 4096
    → heard_all es cs ≡ cs ++ keys es
heard_all-keys [] cs h = sym (append-nil cs)
heard_all-keys ((c, e) ∷ es) cs h = elim (Bool-cases (c == 0)) [
  | inl z ↦ rw z (heard_all-keys es cs (no_key z h))
  | inr z ↦
      let room = one_key z h in
      let next = sym (arrive-append c cs (omega arith)) in
      rw z (
        ap (heard_all es) (sym next)
        ∙ heard_all-keys es (cs ++ (c ∷ [])) (
            subst (λ n. n + length (keys es) ≤ 4096) (sym (length-append cs (c ∷ [])))
              (omega arith))
        ∙ append_assoc cs (c ∷ []) (keys es))
]
  where
    no_key :
        (c == 0) ≡ true
        → length cs + length (keys ((c, e) ∷ es)) ≤ 4096
        → length cs + length (keys es) ≤ 4096
    no_key z h = subst (λ n. length cs + n ≤ 4096) (rw z refl) h

    one_key :
        (c == 0) ≡ false
        → length cs + length (keys ((c, e) ∷ es)) ≤ 4096
        → length cs + (1 + length (keys es)) ≤ 4096
    one_key z h = subst (λ n. length cs + n ≤ 4096) (rw z (omega arith)) h

abbrev pub Keyboard : List Sleep → Type 0
Keyboard es = All (λ e. e.by_keyboard ≡ true) es

-- What `next_char` makes of the unread characters and those to come.
abbrev NextOf : List Sleep → List ℕ → Next → Type 0
NextOf es cs (got c s es1) =
    (cs1 : List ℕ) × Unread s (c ∷ cs1)
    × (c ∷ cs1 ++ all_keys es1 ≡ cs ++ all_keys es)
    × (Keyboard es → Keyboard es1)
NextOf es cs (stopped s es1) =
    (cs1 : List ℕ) × Unread s cs1 × (cs1 ++ all_keys es1 ≡ cs ++ all_keys es) × (Keyboard es → ⊥)
NextOf es cs (asleep s) = Unread s [] × (cs ++ all_keys es ≡ [])

ready : (s : Stdin) (c : ℕ) (cs : List ℕ) → Unread s (c ∷ cs) → ltb s.p_rpos s.p_wpos ≡ true
ready s c cs u = test s.p_rpos s.p_wpos (length cs) u.ends
  where
    test : (r w n : ℕ) → w ≡ r + suc n → ltb r w ≡ true
    test r w n e = ground arith

empty_now : (s : Stdin) → Unread s [] → ltb s.p_rpos s.p_wpos ≡ false
empty_now s u = test s.p_rpos s.p_wpos u.ends
  where
    test : (r w : ℕ) → w ≡ r + 0 → ltb r w ≡ false
    test r w e = ground arith

first_char :
    (s : Stdin) (c : ℕ) (cs : List ℕ) (es : List Sleep)
    → Unread s (c ∷ cs)
    → NextOf es (c ∷ cs) (got (char_at s) s es)
first_char s c cs es u =
    let same = u.contents.0 in
    (cs, subst (λ z. Unread s (z ∷ cs)) (sym same) u, ap (λ z. z ∷ cs ++ all_keys es) same, λ h. h)

-- The reader wakes up and finds what was typed.
woken : (e : Sleep) (es : List Sleep) (n : Next) → NextOf es (keys e.typed) n → NextOf (e ∷ es) [] n
woken e es (got c s es1) (cs1, u, q, k) = (cs1, u, q, λ a. k a.1)
woken e es (stopped s es1) (cs1, u, q, k) = (cs1, u, q, λ a. k a.1)
woken e es (asleep s) (u, q) = (u, q)

woken_or_not :
    (e : Sleep) (es : List Sleep) (n : Next) (s1 : Stdin)
    → Unread s1 (keys e.typed)
    → NextOf es (keys e.typed) n
    → (b : Bool) → e.by_keyboard ≡ b
    → NextOf (e ∷ es) [] (if b then n else stopped s1 es)
woken_or_not e es n s1 u1 k true q = woken e es n k
woken_or_not e es n s1 u1 k false q = (keys e.typed, u1, refl, λ a. cc (sym q ∙ a.0))

typed_now :
    (e : Sleep) (es : List Sleep) (s : Stdin)
    → Unread s []
    → length (keys e.typed ++ all_keys es) ≤ 4096
    → Unread (write_all e.typed s) (keys e.typed)
typed_now e es s u h =
    subst (Unread (write_all e.typed s))
      (heard_all-keys e.typed [] (
        room (length (keys e.typed)) (length (all_keys es))
          (subst (λ n. n ≤ 4096) (length-append (keys e.typed) (all_keys es)) h)))
      (write_all-Unread e.typed s [] u)
  where
    room : (a b : ℕ) → a + b ≤ 4096 → 0 + a ≤ 4096
    room a b h = omega arith

next_char-NextOf :
    (es : List Sleep) (s : Stdin) (cs : List ℕ)
    → Unread s cs
    → length (cs ++ all_keys es) ≤ 4096
    → NextOf es cs (next_char es s)
next_char-NextOf [] s [] u h = rw (empty_now s u) (u, refl)
next_char-NextOf [] s (c ∷ cs) u h = rw (ready s c cs u) (first_char s c cs [] u)
next_char-NextOf (e ∷ es) s (c ∷ cs) u h = rw (ready s c cs u) (first_char s c cs (e ∷ es) u)
next_char-NextOf (e ∷ es) s [] u h =
    let s1 = write_all e.typed s in
    let u1 = typed_now e es s u h in
    rw (empty_now s u) (
      woken_or_not e es (next_char es s1) s1 u1 (next_char-NextOf es s1 (keys e.typed) u1 h)
        e.by_keyboard refl)

-- What a read of `left` characters makes of the unread characters and those to come: it ends, and
-- what it has read and what is left is what there was, in order; or it has read all of it.
abbrev pub ReadOf : ℕ → ℕ → List Sleep → List ℕ → Reading → Type 0
ReadOf left ret es cs (ended r buf s es1) =
    (cs1 : List ℕ) × Unread s cs1
    × (buf ++ (cs1 ++ all_keys es1) ≡ cs ++ all_keys es)
    × (r ≡ ret + length buf)
    × (length buf ≤ left)
    × (Keyboard es → length buf ≡ left)
ReadOf left ret es cs (waits buf s) = Unread s [] × (buf ≡ cs ++ all_keys es) × (length buf < left)

consumed :
    (s : Stdin) (c : ℕ) (cs : List ℕ)
    → Unread s (c ∷ cs)
    → Unread (record s { p_rpos = s.p_rpos + 1 }) cs
consumed s c cs u = record {
  contents = u.contents.1;
  ends = u.ends ∙ shift s.p_rpos (length cs);
  fits = omega (arith, u.fits);
}
  where
    shift : (r n : ℕ) → r + suc n ≡ r + 1 + n
    shift r n = omega arith

stored-ReadOf :
    (left ret c : ℕ) (es es1 : List Sleep) (cs cs1 : List ℕ) (r : Reading)
    → (c ∷ cs1 ++ all_keys es1 ≡ cs ++ all_keys es)
    → (Keyboard es → Keyboard es1)
    → ReadOf left (ret + 1) es1 cs1 r
    → ReadOf (suc left) ret es cs (stored c r)
stored-ReadOf left ret c es es1 cs cs1 (ended r buf s es2) q k (cs2, u, e, n, b, f) =
    (cs2, u, ap (λ z. c ∷ z) e ∙ q, n ∙ shift ret (length buf), omega arith, λ a. ap suc (f (k a)))
  where
    shift : (r n : ℕ) → r + 1 + n ≡ r + suc n
    shift r n = omega arith
stored-ReadOf left ret c es es1 cs cs1 (waits buf s) q k (u, e, b) =
    (u, ap (λ z. c ∷ z) e ∙ q, omega arith)

-- Reads of `left` characters are right.
abbrev Reads : ℕ → Type 0
Reads left =
    (ret : ℕ) (es : List Sleep) (s : Stdin) (cs : List ℕ)
    → Unread s cs
    → length (cs ++ all_keys es) ≤ 4096
    → ReadOf left ret es cs (read_loop left ret es s)

read_next :
    (left ret : ℕ) (es : List Sleep) (cs : List ℕ)
    → Reads left
    → length (cs ++ all_keys es) ≤ 4096
    → (n : Next) → NextOf es cs n
    → ReadOf (suc left) ret es cs (elim n [
      | got c s1 es1 ↦
          stored c (read_loop left (ret + 1) es1 (record s1 { p_rpos = s1.p_rpos + 1 }))
      | stopped s1 es1 ↦ ended ret [] s1 es1
      | asleep s1 ↦ waits [] s1
    ])
read_next left ret es cs ih h (got c s1 es1) (cs1, u1, q, k) =
    let s2 = record s1 { p_rpos = s1.p_rpos + 1 } in
    let room = below (length (cs1 ++ all_keys es1)) (length (cs ++ all_keys es)) (ap length q) h in
    stored-ReadOf left ret c es es1 cs cs1 (read_loop left (ret + 1) es1 s2) q k
      (ih (ret + 1) es1 s2 cs1 (consumed s1 c cs1 u1) room)
  where
    below : (a b : ℕ) → suc a ≡ b → b ≤ 4096 → a ≤ 4096
    below a b e k = omega arith
read_next left ret es cs ih h (stopped s1 es1) (cs1, u1, q, k) =
    (cs1, u1, q, omega arith, omega arith, λ a. absurd (k a))
read_next left ret es cs ih h (asleep s1) (u1, q) = (u1, sym q, omega arith)

read_loop-ReadOf : (left : ℕ) → Reads left
read_loop-ReadOf zero ret es s cs u h = (cs, u, refl, omega arith, omega arith, λ a. refl)
read_loop-ReadOf (suc left) ret es s cs u h =
    read_next left ret es cs (read_loop-ReadOf left) h (next_char es s)
      (next_char-NextOf es s cs u h)

-- Let the buffer hold the unread characters `cs`, and let these and all that are typed while the
-- reader sleeps be at most 4096. If `dev_stdin_read` of `len` characters ends, it returns the
-- number of the characters read, at most `len`; these, the ones left unread and those of the
-- sleeps that did not happen are `cs` and the typed ones, in order and without loss; and if each
-- sleep ends by the keyboard, it has read `len`. If it has not ended, it has read all there was,
-- less than `len`.
pub dev_stdin_read-ReadOf :
    (len : ℕ) (es : List Sleep) (s : Stdin) (cs : List ℕ)
    → Unread s cs
    → length (cs ++ all_keys es) ≤ 4096
    → ReadOf len 0 es cs (dev_stdin_read len es s)
unfolding dev_stdin_read
dev_stdin_read-ReadOf len es s cs u h = read_loop-ReadOf len 0 es s cs u h

-- Under the same conditions, if each sleep ends by the keyboard and at least `len` characters are
-- unread or typed, `dev_stdin_read` ends and returns `len`, with as many characters read.
pub dev_stdin_read-full :
    (len : ℕ) (es : List Sleep) (s : Stdin) (cs : List ℕ)
    → Unread s cs
    → length (cs ++ all_keys es) ≤ 4096
    → len ≤ length (cs ++ all_keys es)
    → Keyboard es
    → (buf : List ℕ) × (s' : Stdin) × (es' : List Sleep) × (dev_stdin_read len es s
        ≡ ended len buf s' es')
      × (length buf ≡ len)
dev_stdin_read-full len es s cs u h enough k =
    after (dev_stdin_read len es s) (dev_stdin_read-ReadOf len es s cs u h)
  where
    whole : {r : ℕ} → (b : ℕ) → r ≡ 0 + b → b ≡ len → r ≡ len
    whole b n e = omega arith

    short : (a b : ℕ) → a ≡ b → a < len → len ≤ b → ⊥
    short a b e l k = omega arith

    after :
        (r : Reading)
        → ReadOf len 0 es cs r
        → (buf : List ℕ) × (s' : Stdin) × (es' : List Sleep) × (r ≡ ended len buf s' es')
          × (length buf ≡ len)
    after (ended r buf s' es') (cs1, u1, q, n, b, f) =
        (buf, s', es', ap (λ z. ended z buf s' es') (whole (length buf) n (f k)), f k)
    after (waits buf s') (u1, q, b) =
        absurd (short (length buf) (length (cs ++ all_keys es)) (ap length q) b enough)
