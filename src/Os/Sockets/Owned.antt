-- ===== src/Os/Sockets/Owned.antt =====
-- Whose sockets `sockets` (native/smbctl/src/os.rs) returns.
use android_smb_for_ksu.Common.{
  ℕ, suc, ◌≡◌, refl, sym, ap, subst, inl, inr, arith, true, ◌&&◌, List, [], ◌∷◌, Option, none, some,
  All, All-map, All-append, get_elem?, drop, Bool-cases, Option-cases, and_left, and_right,
}
use android_smb_for_ksu.Text.{Text, chars, str_eq, is_one_of, split_once, split_whitespace, lines}
use android_smb_for_ksu.Text.Lemmas.{str_eq_iff}
use android_smb_for_ksu.Os.Sockets.{
  Owner, Table, tcp, tcp6, Socket, socket_inode, is_same, add_inode, link_inodes, owner_inodes,
  inodes, field, local_socket, row_socket, row_sockets, table_sockets, sockets,
}

-- one of the processes holds the socket with this inode, and was when the links of its descriptors
-- were read the process that had been seen
abbrev pub IsHeldBy : Owner → Text → Type 0
IsHeldBy o i =
    (o.start ≡ some o.seen_start)
    × (o.exe ≡ some o.seen_exe)
    × ((links : List Text) × (o.links ≡ some links)
        × ((j : ℕ) × (l : Text) × (get_elem? links j ≡ some l) × (socket_inode l ≡ some i)))

abbrev pub IsHeld : List Owner → Text → Type 0
IsHeld ps i = (k : ℕ) × (o : Owner) × (get_elem? ps k ≡ some o) × IsHeldBy o i

-- the text of a table
abbrev pub text_of : Option Text → Option Text → Table → Option Text
text_of tcp_text tcp6_text tcp = tcp_text
text_of tcp_text tcp6_text tcp6 = tcp6_text

-- a line of a table behind its heading is that of a listening socket that one of the processes holds
abbrev pub IsListening : Option Text → Option Text → List Owner → Socket → Type 0
IsListening tcp_text tcp6_text ps s =
    (table : Table) × (text : Text) × (k : ℕ) × (line : Text) × (text_of tcp_text tcp6_text table
      ≡ some text)
    × (get_elem? (drop 1 (lines text)) k ≡ some line)
    × (field (split_whitespace line) 3 ≡ chars "0A")
    × IsHeld ps (field (split_whitespace line) 9)
    × (local_socket table (split_once (field (split_whitespace line) 1) b':') ≡ some s)

-- the same of one of some lines
IsListed : Table → List Owner → List Text → Socket → Type 0
IsListed table ps ls s =
    (k : ℕ) × (line : Text) × (get_elem? ls k ≡ some line)
    × (field (split_whitespace line) 3 ≡ chars "0A")
    × IsHeld ps (field (split_whitespace line) 9)
    × (local_socket table (split_once (field (split_whitespace line) 1) b':') ≡ some s)

is_same-≡ : (o : Option Text) (s : Text) → is_same o s ≡ true → o ≡ some s
is_same-≡ none s h = cc
is_same-≡ (some t) s h = ap some ((str_eq_iff t s).0 h)

InLinks : List Text → Text → Type 0
InLinks links i = (j : ℕ) × (l : Text) × (get_elem? links j ≡ some l) × (socket_inode l ≡ some i)

add_inode-All :
    (P : Text → Type 0) (o : Option Text) (is : List Text)
    → ((i : Text) → o ≡ some i → P i)
    → All P is
    → All P (add_inode o is)
add_inode-All P none is h all = all
add_inode-All P (some i) is h all = (h i refl, all)

link_inodes-InLinks : (links : List Text) → All (InLinks links) (link_inodes links)
unfolding link_inodes InLinks
link_inodes-InLinks [] = tt
link_inodes-InLinks (l ∷ ls) =
    add_inode-All (InLinks (l ∷ ls)) (socket_inode l) (link_inodes ls) (λ i e. (0, l, refl, e))
      (All-map (link_inodes ls) (λ i h. (suc h.0, h.1, h.2, h.3)) (link_inodes-InLinks ls))

owner_inodes-IsHeldBy :
    (o : Owner) (links : Option (List Text))
    → o.links ≡ links
    → All (IsHeldBy o) (owner_inodes o links)
owner_inodes-IsHeldBy o none e = tt
owner_inodes-IsHeldBy o (some links) e =
    elim (Bool-cases (is_same o.start o.seen_start && is_same o.exe o.seen_exe)) [
      | inr changed ↦ rw changed tt
      | inl same ↦
          let start = is_same-≡ o.start o.seen_start (and_left _ _ same) in
          let exe = is_same-≡ o.exe o.seen_exe (and_right (is_same o.start o.seen_start) _ same) in
          rw same (
            All-map (link_inodes links) (λ i h. (start, exe, (links, e, h)))
              (unfold InLinks in link_inodes-InLinks links))
    ]

inodes-IsHeld : (ps : List Owner) → All (IsHeld ps) (inodes ps)
unfolding inodes
inodes-IsHeld [] = tt
inodes-IsHeld (o ∷ os) =
    All-append (IsHeld (o ∷ os)) (owner_inodes o o.links) (inodes os)
      (All-map (owner_inodes o o.links) (λ i h. (0, o, refl, h))
        (owner_inodes-IsHeldBy o o.links refl))
      (All-map (inodes os) (λ i h. (suc h.0, h.1, h.2, h.3)) (inodes-IsHeld os))

is_one_of-All :
    (P : Text → Type 0) (ts : List Text) (t : Text) → All P ts → is_one_of ts t ≡ true → P t
unfolding is_one_of
is_one_of-All P [] t all h = cc
is_one_of-All P (x ∷ ts) t all h = elim (Bool-cases (str_eq t x)) [
  | inl same ↦ subst P (sym ((str_eq_iff t x).0 same)) all.0
  | inr other_text ↦ is_one_of-All P ts t all.1 (ground arith)
]

row_socket-IsListed :
    (ps : List Owner) (table : Table) (l : Text) (ls : List Text) {s : Socket}
    → row_socket table (inodes ps) (split_whitespace l) ≡ some s
    → IsListed table ps (l ∷ ls) s
unfolding row_socket IsListed
row_socket-IsListed ps table l ls {s = s} h =
    let row = split_whitespace l in
    let listens : str_eq (field row 3) (chars "0A") ≡ true = ground arith in
    let held : is_one_of (inodes ps) (field row 9) ≡ true = ground arith in
    let there : local_socket table (split_once (field row 1) b':') ≡ some s = ground arith in
    (
      0,
      l,
      refl,
      (str_eq_iff (field row 3) (chars "0A")).0 listens,
      is_one_of-All (IsHeld ps) (inodes ps) (field row 9) (inodes-IsHeld ps) held,
      there,
    )

row_sockets-IsListed :
    (ps : List Owner) (table : Table) (ls : List Text)
    → All (IsListed table ps ls) (row_sockets table (inodes ps) ls)
unfolding row_sockets
row_sockets-IsListed ps table [] = tt
row_sockets-IsListed ps table (l ∷ ls) =
    let rest =
      All-map {P = IsListed table ps ls} {Q = IsListed table ps (l ∷ ls)}
        (row_sockets table (inodes ps) ls)
        (λ s h. unfold IsListed in (suc h.0, h.1, h.2, h.3, h.4, h.5))
        (row_sockets-IsListed ps table ls) in
    elim (Option-cases (row_socket table (inodes ps) (split_whitespace l))) [
      | inl nothing ↦ rw (nothing, row_sockets) rest
      | inr (s, found) ↦ rw (found, row_sockets) (row_socket-IsListed ps table l ls found, rest)
    ]

module _ (ps : List Owner) (tcp_text tcp6_text : Option Text) where
  table_sockets-IsListening :
      (table : Table) (text : Option Text)
      → text_of tcp_text tcp6_text table ≡ text
      → All (IsListening tcp_text tcp6_text ps) (table_sockets table (inodes ps) text)
  table_sockets-IsListening table none e = tt
  table_sockets-IsListening table (some text) e =
      All-map {P = IsListed table ps (drop 1 (lines text))} {Q = IsListening tcp_text tcp6_text ps}
        (row_sockets table (inodes ps) (drop 1 (lines text)))
        (λ s h. unfold IsListed in (table, text, h.0, h.1, e, h.2, h.3, h.4, h.5))
        (row_sockets-IsListed ps table (drop 1 (lines text)))

  -- Every socket that `sockets` returns stands in a line of one of the two tables, behind the heading, as
  -- a listening one, and its inode is one that a process of the list holds, which has not been replaced
  -- by another since it was found.
  pub sockets-IsListening : All (IsListening tcp_text tcp6_text ps) (sockets ps tcp_text tcp6_text)
  unfolding sockets
  sockets-IsListening =
      All-append (IsListening tcp_text tcp6_text ps) (table_sockets tcp (inodes ps) tcp_text)
        (table_sockets tcp6 (inodes ps) tcp6_text) (table_sockets-IsListening tcp tcp_text refl)
        (table_sockets-IsListening tcp6 tcp6_text refl)
