-- ===== src/Nettest/Lines.antt =====
-- internal/nettest/nettest.go and command/command.go: the lines of a printed script.
use pktc.Common.{
  ℕ, ◌≡◌, refl, sym, ap, ◌∙◌, ◌==◌, ◌&&◌, not, Bool, true, Bool-cases, inl, inr, Text, bytes,
  text_eq, contains_byte, contains_text, List, [], ◌∷◌, ◌++◌, append_assoc, map, join, all, All,
  arith,
}
use pktc.Std.Strings.{is_blank}
use pktc.Std.Trim.{is_solid, Framed, OneLine, OneLine-append}
use pktc.Command.{Command, command, command_string, is_safe_byte, safe, quote, replace_quotes}

-- a byte with which a word of a command line may begin or end
abbrev pub is_edge : ℕ → Bool
is_edge a = is_solid a && not (a == b'#')

safe-edge : (a : ℕ) → is_safe_byte a ≡ true → is_edge a ≡ true
unfolding is_safe_byte is_blank
safe-edge a h = ground arith

-- a text with such bytes at both ends
pub record Edged (u : Text) : Type 0 where
  pub first : ℕ
  pub behind : Text
  pub begins : u ≡ first ∷ behind
  pub first_edge : is_edge first ≡ true
  pub front : Text
  pub last : ℕ
  pub ends : u ≡ front ++ last ∷ []
  pub last_edge : is_edge last ≡ true

all-last :
    (p : ℕ → Bool) (a : ℕ) (s : Text)
    → all p (a ∷ s) ≡ true
    → (r : Text) × (z : ℕ) × (a ∷ s ≡ r ++ z ∷ []) × (p z ≡ true)
all-last p a [] h = ([], a, refl, ground arith)
all-last p a (b ∷ s) h =
    let (r, z, e, pz) = all-last p b s (ground arith) in (a ∷ r, z, ap (λ w. a ∷ w) e, pz)

safe-Edged : (s : Text) → safe s ≡ true → Edged s
unfolding safe text_eq
safe-Edged [] h = cc h
safe-Edged (a ∷ s) h =
    let (r, z, e, pz) = all-last is_safe_byte a s h in
    record {
      first = a;
      behind = s;
      begins = refl;
      first_edge = safe-edge a (ground arith);
      front = r;
      last = z;
      ends = e;
      last_edge = safe-edge z pz;
    }

-- a text between two quote marks
between-Edged : (q : ℕ) (s : Text) → is_edge q ≡ true → Edged (q ∷ (s ++ q ∷ []))
between-Edged q s h = record {
  first = q;
  behind = s ++ q ∷ [];
  begins = refl;
  first_edge = h;
  front = q ∷ s;
  last = q;
  ends = refl;
  last_edge = h;
}

pub quote-Edged : (s : Text) → Edged (quote s)
unfolding quote is_blank
quote-Edged s = elim (Bool-cases (safe s)) [
  | inl plain ↦ rw plain (safe-Edged s plain)
  | inr odd ↦
      rw odd
        (elim (Bool-cases (contains_text s (bytes "$(") && not (contains_text s (bytes "\"")))) [
          | inl substitutes ↦ rw substitutes (between-Edged b'"' s refl)
          | inr literal ↦ rw literal (between-Edged b'\'' (replace_quotes s) refl)
        ])
]

replace_quotes-OneLine : (s : Text) → OneLine s → OneLine (replace_quotes s)
unfolding replace_quotes contains_byte
replace_quotes-OneLine [] h = refl
replace_quotes-OneLine (c ∷ s) h = ground (arith, replace_quotes-OneLine s)

quote-OneLine : (s : Text) → OneLine s → OneLine (quote s)
unfolding quote contains_byte
quote-OneLine s h = elim (Bool-cases (safe s)) [
  | inl plain ↦ rw plain h
  | inr odd ↦
      rw odd
        (elim (Bool-cases (contains_text s (bytes "$(") && not (contains_text s (bytes "\"")))) [
          | inl substitutes ↦ rw substitutes (OneLine-append s (b'"' ∷ []) h refl)
          | inr literal ↦
              rw literal
                (OneLine-append (replace_quotes s) (b'\'' ∷ []) (replace_quotes-OneLine s h) refl)
        ])
]

append-Edged : {s u : Text} (t : Text) → Edged s → Edged u → Edged (s ++ (t ++ u))
append-Edged {s} {u} t e f = record {
  first = e.first;
  behind = e.behind ++ (t ++ u);
  begins = rw e.begins refl;
  first_edge = e.first_edge;
  front = s ++ (t ++ f.front);
  last = f.last;
  ends =
      ap (λ w. s ++ (t ++ w)) f.ends
      ∙ ap (λ w. s ++ w) (sym (append_assoc t f.front (f.last ∷ [])))
      ∙ sym (append_assoc s (t ++ f.front) (f.last ∷ []));
  last_edge = f.last_edge;
}

quoted-Edged : (a : Text) (args : List Text) (sep : Text) → Edged (join (map quote (a ∷ args)) sep)
unfolding join
quoted-Edged a [] sep = quote-Edged a
quoted-Edged a (b ∷ args) sep = append-Edged sep (quote-Edged a) (quoted-Edged b args sep)

quoted-OneLine :
    (args : List Text) (sep : Text)
    → OneLine sep
    → All OneLine args
    → OneLine (join (map quote args) sep)
unfolding join contains_byte
quoted-OneLine [] sep hs h = refl
quoted-OneLine (a ∷ []) sep hs (one, _) = quote-OneLine a one
quoted-OneLine (a ∷ b ∷ args) sep hs (one, more) =
    OneLine-append (quote a) _ (quote-OneLine a one)
      (OneLine-append sep _ hs (quoted-OneLine (b ∷ args) sep hs more))

-- A command that fits on one line of a script, its reason on another.
pub record Fits (c : Command) : Type 0 where
  pub program : Text
  pub args : List Text
  pub named : c.argv ≡ program ∷ args
  pub args_fit : All OneLine c.argv
  pub why_fits : OneLine c.why

-- a test for the arguments
pub all-OneLine :
    (args : List Text) → all (λ a. not (contains_byte b'\n' a)) args ≡ true → All OneLine args
all-OneLine [] h = tt
all-OneLine (a ∷ args) h = (ground arith, all-OneLine args (ground arith))

pub command-Fits :
    (why program : Text) (args : List Text)
    → all (λ a. not (contains_byte b'\n' a)) (program ∷ args) ≡ true
    → OneLine why
    → Fits (command why (program ∷ args))
command-Fits why program args h one = record {
  program = program;
  args = args;
  named = refl;
  args_fit = all-OneLine (program ∷ args) h;
  why_fits = one;
}

pub command_string-Edged : {c : Command} → Fits c → Edged (command_string c)
unfolding command_string
command_string-Edged f = rw f.named (quoted-Edged f.program f.args (bytes " "))

pub command_string-OneLine : {c : Command} → Fits c → OneLine (command_string c)
unfolding command_string contains_byte bytes
command_string-OneLine {c} f = quoted-OneLine c.argv (bytes " ") refl f.args_fit

solid : (a : ℕ) → is_edge a ≡ true → is_solid a ≡ true
solid a h = ground arith

-- a text that begins with a byte which is no white space, and ends with an edged text
pub append-Framed :
    {u : Text} (h : ℕ) (s : Text) → is_solid h ≡ true → Edged u → Framed ((h ∷ s) ++ u)
append-Framed {u} h s hs e = record {
  first = h;
  behind = s ++ u;
  begins = refl;
  first_solid = hs;
  front = (h ∷ s) ++ e.front;
  last = e.last;
  ends = ap (λ w. (h ∷ s) ++ w) e.ends ∙ sym (append_assoc (h ∷ s) e.front (e.last ∷ []));
  last_solid = solid e.last e.last_edge;
}

pub Edged-Framed : {u : Text} → Edged u → Framed u
Edged-Framed e = record {
  first = e.first;
  behind = e.behind;
  begins = e.begins;
  first_solid = solid e.first e.first_edge;
  front = e.front;
  last = e.last;
  ends = e.ends;
  last_solid = solid e.last e.last_edge;
}
