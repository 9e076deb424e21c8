-- ===== src/Tokens/Nonces/Once.antt =====
-- A nonce counts once: what each answer of consume means, and the book over time.
use mathlib.Core.Bool.{false≢true}
use blockchain_io_t_a.Merkle.Sort.{distinct}
use blockchain_io_t_a.Prelude.{
  Bool, Option-cases, [], arith, false, inl, inr, mem, nat_eq, not, refl, some, sym, text_beq_iff,
  text_eq, true, ℕ, ◌&&◌, ◌==◌, ◌||◌, ◌∙◌, ◌∷◌, ◌≡◌, ◌≢◌, ◌≤◌,
}
use blockchain_io_t_a.Prelude.Dict.{Dict, erase, insert, keys, lookup}
use blockchain_io_t_a.Prelude.Dict.Entries.{distinct_keys}
use blockchain_io_t_a.Prelude.Text.{Str}
use blockchain_io_t_a.Tokens.Nonces.{
  NonceBook, NonceEntry, consume, is_dead, issue_nonce, nonce_ok, purge,
}

-- What must hold of the book for a nonce to be taken.
pub record IsFresh (book : NonceBook) (purpose subject nonce : Str) (now : ℕ) (e : NonceEntry)
    : Type 0 where
  pub issued : lookup nonce book.entries ≡ some e
  pub for_purpose : e.purpose ≡ purpose
  pub for_subject : e.subject ≡ subject
  pub unused : e.used ≡ false
  pub in_time : now ≤ e.expires_at

module _ (book : NonceBook) (purpose subject nonce : Str) (now : ℕ) where
  -- A nonce is taken only if the fog issued it, for this purpose and this subject, and it is unused
  -- and in time; then it is marked as used and nothing else changes.
  pub consume-ok :
      (book' : NonceBook)
      → consume book purpose subject nonce now ≡ (nonce_ok, book')
      → (e : NonceEntry) × IsFresh book purpose subject nonce now e
        × (book'.entries ≡ insert nonce (record e { used = true }) book.entries)
        × (book'.ttl ≡ book.ttl)
  unfolding consume is_dead
  consume-ok book' h = elim (Option-cases (lookup nonce book.entries)) [
    | inl missing ↦ absurd (ground arith)
    | inr (e, there) ↦ (
      e,
      record {
        issued = there;
        for_purpose = ground (arith, text_beq_iff e.purpose purpose);
        for_subject = ground (arith, text_beq_iff e.subject subject);
        unused = ground arith;
        in_time = ground arith;
      },
      ground arith,
      ground arith,
    )
  ]

  -- A fresh nonce is taken.
  pub consume-fresh :
      (e : NonceEntry)
      → IsFresh book purpose subject nonce now e
      → (consume book purpose subject nonce now).0 ≡ nonce_ok
  unfolding consume is_dead
  consume-fresh e h = ground (arith, text_beq_iff e.purpose purpose, text_beq_iff e.subject subject)

-- What the fog does to its book while one nonce is watched: issuing any other nonce, and consuming.
pub data Step (nonce : Str) : NonceBook → NonceBook → Type 0 where
  issues :
      (book : NonceBook) (purpose subject fresh : Str) (now : ℕ)
      → (fresh == nonce) ≡ false
      → Step nonce book (issue_nonce book purpose subject fresh now)
  consumes :
      (book : NonceBook) (purpose subject other : Str) (now : ℕ)
      → Step nonce book (consume book purpose subject other now).1

pub data Steps (nonce : Str) (book : NonceBook) : NonceBook → Type 0 where
  here : Steps nonce book book
  next : {b b' : NonceBook} → Steps nonce book b → Step nonce b b' → Steps nonce book b'

-- The nonce is unknown or used in these entries.
abbrev pub spent : Str → Dict Str NonceEntry → Bool
spent nonce [] = true
spent nonce ((n, e) ∷ entries) = (not (nonce == n) || e.used) && spent nonce entries

purge-spent :
    (nonce : Str) (now : ℕ) (d : Dict Str NonceEntry)
    → spent nonce d ≡ true
    → spent nonce (purge now d) ≡ true
unfolding purge
purge-spent nonce now [] h = refl
purge-spent nonce now ((n, e) ∷ d) h = ground (arith, purge-spent nonce now d)

insert-spent :
    (nonce k : Str) (e : NonceEntry) (d : Dict Str NonceEntry)
    → (not (nonce == k) || e.used) ≡ true
    → spent nonce d ≡ true
    → spent nonce (insert k e d) ≡ true
insert-spent nonce k e [] h s = ground arith
insert-spent nonce k e ((n, f) ∷ d) h s = ground (arith, insert-spent nonce k e d, text_beq_iff k n)

erase-spent :
    (nonce k : Str) (d : Dict Str NonceEntry)
    → spent nonce d ≡ true
    → spent nonce (erase k d) ≡ true
erase-spent nonce k [] h = refl
erase-spent nonce k ((n, e) ∷ d) h = ground (arith, erase-spent nonce k d)

spent-lookup :
    (nonce : Str) (d : Dict Str NonceEntry) (e : NonceEntry)
    → spent nonce d ≡ true
    → lookup nonce d ≡ some e
    → e.used ≡ true
spent-lookup nonce [] e h l = cc
spent-lookup nonce ((n, f) ∷ d) e h l = ground (arith, spent-lookup nonce d e)

absent-spent :
    (nonce : Str) (d : Dict Str NonceEntry) → mem nonce (keys d) ≡ false → spent nonce d ≡ true
absent-spent nonce [] h = refl
absent-spent nonce ((n, e) ∷ d) h = ground (arith, absent-spent nonce d)

mark-spent :
    (nonce : Str) (e f : NonceEntry) (d : Dict Str NonceEntry)
    → distinct_keys d ≡ true
    → lookup nonce d ≡ some f
    → e.used ≡ true
    → spent nonce (insert nonce e d) ≡ true
mark-spent nonce e f [] h l u = cc
mark-spent nonce e f ((n, g) ∷ d) h l u =
    ground (arith, mark-spent nonce e f d, absent-spent nonce d, text_beq_iff nonce n)

Step-spent :
    (nonce : Str) {b b' : NonceBook}
    → Step nonce b b'
    → spent nonce b.entries ≡ true
    → spent nonce b'.entries ≡ true
unfolding consume issue_nonce
Step-spent nonce (issues book purpose subject fresh now other) h =
    insert-spent nonce fresh _ (purge now book.entries)
      (ground (arith, text_beq_iff fresh nonce, text_beq_iff nonce fresh))
      (purge-spent nonce now book.entries h)
Step-spent nonce (consumes book purpose subject other now) h =
    elim (Option-cases (lookup other book.entries)) [
      | inl missing ↦ ground arith
      | inr (e, there) ↦ ground (
        arith,
        insert-spent nonce other (record e { used = true }) book.entries,
        erase-spent nonce other book.entries,
      )
    ]

Steps-spent :
    (nonce : Str) {b b' : NonceBook}
    → spent nonce b.entries ≡ true
    → Steps nonce b b'
    → spent nonce b'.entries ≡ true
Steps-spent nonce h here = h
Steps-spent nonce h (next steps step) = Step-spent nonce step (Steps-spent nonce h steps)

-- A nonce that was taken from a book, which holds each nonce once, is not taken again, for whatever
-- purpose and subject and at whatever time, however many nonces are issued and consumed meanwhile,
-- unless the same nonce is issued anew.
pub consume-once :
    (book book' later : NonceBook) (purpose subject nonce purpose' subject' : Str) (now now' : ℕ)
    → distinct_keys book.entries ≡ true
    → consume book purpose subject nonce now ≡ (nonce_ok, book')
    → Steps nonce book' later
    → (consume later purpose' subject' nonce now').0 ≢ nonce_ok
consume-once book book' later purpose subject nonce purpose' subject' now now' distinct h steps
      again =
    let (e, fresh, marked, _) = consume-ok book purpose subject nonce now book' h in
    let used =
      mark-spent nonce (record e { used = true }) e book.entries distinct fresh.issued refl in
    let still = Steps-spent nonce (rw marked used) steps in
    let (later', answer) : (b : NonceBook) × (consume later purpose' subject' nonce now'
          ≡ (nonce_ok, b)) =
      ((consume later purpose' subject' nonce now').1, cc) in
    let (f, fresh', _, _) = consume-ok later purpose' subject' nonce now' later' answer in
    false≢true (sym fresh'.unused ∙ spent-lookup nonce later.entries f still fresh'.issued)
