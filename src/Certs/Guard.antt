-- ===== src/Certs/Guard.antt =====
-- The scheme guard loses no byte.
use lanrunner.Common.{
  ◌+◌, ◌&&◌, length-drop, length-append, ◌⊎◌, ◌≤◌, ◌-◌, append_assoc, ℕ, ◌≡◌, refl, sym, ap, ◌∙◌,
  true, List, [], ◌∷◌, ◌++◌, ltb, ◌==◌, if◌then◌else◌, length, take, drop, take-append-drop, inl,
  inr, Bool-cases, arith,
}
use lanrunner.Certs.{SchemeConn, read, tls_side, plain_side, hung_up, split_by_scheme}

-- What is left of a list of length zero.
only_nil : (l : List ℕ) → (length l == 0) ≡ true → l ≡ []
only_nil [] e = refl
only_nil (x ∷ l) e = absurd (ground arith)

-- What a sequence of reads returns, each of a buffer size and a bound on what the network has.
pub reads : SchemeConn → List (ℕ × ℕ) → SchemeConn × List ℕ
reads conn [] = (conn, [])
reads conn ((n, most) ∷ sizes) =
    let (conn', got) = read conn n most in let (end, more) = reads conn' sizes in (end, got ++ more)

abbrev pub pending : SchemeConn → List ℕ
pending conn = conn.prefix ++ conn.rest

read-pending :
    (conn : SchemeConn) (n most : ℕ)
    → (read conn n most).1 ++ pending (read conn n most).0 ≡ pending conn
unfolding read
read-pending conn n most = elim (Bool-cases (length conn.prefix == 0)) [
  | inr e ↦ rw e (
      sym (append_assoc (take n conn.prefix) (drop n conn.prefix) conn.rest)
      ∙ ap (◌++ conn.rest) (take-append-drop n conn.prefix))
  | inl e ↦
      let m = if ltb most n then most else n in
      rw e (rw (only_nil conn.prefix e) (take-append-drop m conn.rest))
]

-- The bytes read so far and those that are pending are those that were pending at the start.
reads-pending :
    (conn : SchemeConn) (sizes : List (ℕ × ℕ))
    → (reads conn sizes).1 ++ pending (reads conn sizes).0 ≡ pending conn
unfolding reads
reads-pending conn [] = refl
reads-pending conn ((n, most) ∷ sizes) =
    let (conn', got) = read conn n most in
    append_assoc got (reads conn' sizes).1 (pending (reads conn' sizes).0)
    ∙ ap (got ++◌) (reads-pending conn' sizes)
    ∙ read-pending conn n most

-- The reads into a buffer that is not empty while the network has something.
pub useful : List (ℕ × ℕ) → ℕ
useful [] = 0
useful ((n, most) ∷ sizes) = (if ltb 0 n && ltb 0 most then 1 else 0) + useful sizes

-- A read that can give something does.
length-read :
    (conn : SchemeConn) (n most : ℕ)
    → length (pending (read conn n most).0)
      ≤ length (pending conn) - (if ltb 0 n && ltb 0 most then 1 else 0)
unfolding read
length-read conn n most =
    let m = if ltb most n then most else n in
    let whole = length-append conn.prefix conn.rest in
    elim (Bool-cases (length conn.prefix == 0)) [
      | inr e ↦ rw e (
          ground
            (arith, whole, length-append (drop n conn.prefix) conn.rest, length-drop n conn.prefix))
      | inl e ↦ rw e (
          ground
            (arith, whole, length-append conn.prefix (drop m conn.rest), length-drop m conn.rest))
    ]

length-reads :
    (conn : SchemeConn) (sizes : List (ℕ × ℕ))
    → length (pending (reads conn sizes).0) ≤ length (pending conn) - useful sizes
unfolding reads useful
length-reads conn [] = omega arith
length-reads conn ((n, most) ∷ sizes) =
    omega (arith, length-read conn n most, length-reads (read conn n most).0 sizes)

-- The guard hands a caller to the TLS server exactly if its first byte is 0x16, and otherwise to the one
-- that redirects, and drops it if it sends nothing. However the server reads, it gets what the caller
-- sent from the first byte on, in order, and each read that has room, while the network has something,
-- leaves less of it to come.
pub split_by_scheme-reads :
    (sent : List ℕ) (sizes : List (ℕ × ℕ))
    → ((sent ≡ []) × (split_by_scheme sent ≡ hung_up))
      ⊎ ((b : ℕ) × (rest : List ℕ) × (conn : SchemeConn) × (sent ≡ b ∷ rest)
          × (split_by_scheme sent ≡ (if b == 0x16 then tls_side conn else plain_side conn))
          × ((later : List ℕ) × ((reads conn sizes).1 ++ later ≡ sent)
              × (length later ≤ length sent - useful sizes)))
unfolding split_by_scheme
split_by_scheme-reads [] sizes = inl (refl, refl)
split_by_scheme-reads (b ∷ rest) sizes =
    let conn : SchemeConn = record { prefix = b ∷ []; rest = rest } in
    inr (
      b,
      rest,
      conn,
      refl,
      refl,
      (pending (reads conn sizes).0, reads-pending conn sizes, length-reads conn sizes),
    )
