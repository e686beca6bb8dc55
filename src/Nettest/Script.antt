-- ===== src/Nettest/Script.antt =====
-- internal/nettest/nettest.go: what `RunScript` runs of a script.
use pktc.Common.{
  ℕ, ◌≡◌, refl, sym, ap, subst, ◌∙◌, ◌==◌, ◌&&◌, arith, true, false, Text, bytes, text_eq,
  has_prefix, Option, none, some, List, [], ◌∷◌, ◌++◌, append_assoc, All, All-append, if◌then◌else◌,
}
use mathlib.Core.Path.{fun_ext}
use pktc.Std.Strings.{is_blank, trim_space, split_lines}
use pktc.Std.Trim.{
  is_solid, Framed, trim_space-front, trim_space-Framed, OneLine, lined, lined-append,
  split_lines-script,
}
use pktc.Nettest.{
  Host, M, ◌>>=◌, pure, succeeded, failure_text, is_passed, run, run_line, run_lines, run_script,
}
use pktc.Nettest.Lines.{is_edge, Edged, Edged-Framed}

-- the first line, if there is one, begins with no white space
pub data Leads : List Text → Type 0 where
  no_lines : Leads []
  leads : {a : ℕ} {s : Text} {ls : List Text} → is_solid a ≡ true → Leads ((a ∷ s) ∷ ls)

lined-Framed : {ls : List Text} {z : Text} → Leads ls → Framed z → Framed (lined ls ++ z)
unfolding lined
lined-Framed no_lines f = f
lined-Framed {z = z} (leads {a} {s} {ls} h) f = record {
  first = a;
  behind = (s ++ (bytes "\n" ++ lined ls)) ++ z;
  begins = refl;
  first_solid = h;
  front = lined ((a ∷ s) ∷ ls) ++ f.front;
  last = f.last;
  ends =
      ap (λ w. lined ((a ∷ s) ∷ ls) ++ w) f.ends
      ∙ sym (append_assoc (lined ((a ∷ s) ∷ ls)) f.front (f.last ∷ []));
  last_solid = f.last_solid;
}

-- The lines of a script, and the commands among them: each alone on its line, the other lines being
-- comments or empty.
pub data Shows : List Text → List Text → Type 0 where
  over : Shows [] []
  passes :
      {l : Text} {ls cs : List Text}
      → is_passed (trim_space l) ≡ true
      → Shows ls cs
      → Shows (l ∷ ls) cs
  runs : {l : Text} {ls cs : List Text} → Edged l → Shows ls cs → Shows (l ∷ ls) (l ∷ cs)

pub Shows-append :
    {ls cs ms ds : List Text} → Shows ls cs → Shows ms ds → Shows (ls ++ ms) (cs ++ ds)
Shows-append over more = more
Shows-append (passes p s) more = passes p (Shows-append s more)
Shows-append (runs e s) more = runs e (Shows-append s more)

pub comment-Shows : {ls cs : List Text} (s : Text) → Shows ls cs → Shows ((b'#' ∷ s) ∷ ls) cs
unfolding is_passed is_blank text_eq has_prefix bytes
comment-Shows s more = let (y, e) = trim_space-front b'#' s refl in passes (rw e refl) more

pub empty-Shows : {ls cs : List Text} → Shows ls cs → Shows ([] ∷ ls) cs
unfolding is_passed text_eq trim_space
empty-Shows more = passes refl more

edge-ne-hash : (a : ℕ) → is_edge a ≡ true → (a == b'#' && true) ≡ false
unfolding is_blank
edge-ne-hash a h = ground arith

module _ {W : Type 0} (h : Host W) (ns : Text) where
  -- the commands one after the other, each through a shell, up to the first that fails, whose error
  -- names it
  unfoldable pub run_all : List Text → M W (Option Text)
  run_all [] = pure none
  run_all (c ∷ cs) =
      let others = run_all cs in
      run h ns (bytes "sh" ∷ bytes "-c" ∷ c ∷ []) >>= λ r. elim r.failure [
        | none ↦ others
        | some e ↦ pure (some (c ++ (bytes ": " ++ (e ++ (bytes "\n" ++ trim_space r.out)))))
      ]

  if-succeeded :
      {A : Type 0} (f : Option Text) (m : A) (k : Text → A)
      → (if succeeded f then m else k (failure_text f)) ≡ elim f [ none ↦ m | some e ↦ k e ]
  if-succeeded none m k = refl
  if-succeeded (some e) m k = refl

  run_line-run_all : (c : Text) (cs : List Text) → run_line h ns c (run_all cs) ≡ run_all (c ∷ cs)
  unfolding run_line run_all
  run_line-run_all c cs =
      ap (λ f. run h ns (bytes "sh" ∷ bytes "-c" ∷ c ∷ []) >>= f)
        (fun_ext λ r.
          if-succeeded r.failure (run_all cs)
            λ e. pure (some (c ++ (bytes ": " ++ (e ++ (bytes "\n" ++ trim_space r.out))))))

  Edged-runs :
      {l : Text} (later : M W (Option Text))
      → Edged l
      → (if is_passed (trim_space l) then later else run_line h ns (trim_space l) later)
        ≡ run_line h ns l later
  unfolding is_passed text_eq has_prefix bytes
  Edged-runs {l} later e = rw (trim_space-Framed (Edged-Framed e)) (rw (passed) refl)
    where
      passed : is_passed l ≡ false
      passed = rw e.begins (edge-ne-hash e.first e.first_edge)

  run_lines-Shows : {ls cs : List Text} → Shows ls cs → run_lines h ns ls ≡ run_all cs
  unfolding run_lines run_all
  run_lines-Shows over = refl
  run_lines-Shows (passes p s) = rw p (run_lines-Shows s)
  run_lines-Shows (runs {l} {ls} {cs} e s) =
      Edged-runs (run_lines h ns ls) e
      ∙ ap (run_line h ns l) (run_lines-Shows s)
      ∙ run_line-run_all l cs

-- A text that prints the commands `cs`: its lines, the last one apart.
pub record Prints (out : Text) (cs : List Text) : Type 0 where
  pub lines : List Text
  pub last : Text
  pub text : out ≡ (lined lines ++ last) ++ bytes "\n"
  pub leading : Leads lines
  pub framed : Framed last
  pub lines_fit : All OneLine lines
  pub last_fits : OneLine last
  pub shows : Shows (lines ++ last ∷ []) cs

module _ {W : Type 0} (h : Host W) (ns : Text) where
  -- `RunScript` runs of a text what it prints.
  pub run_script-Prints :
      {out : Text} {cs : List Text} → Prints out cs → run_script h ns out ≡ run_all h ns cs
  unfolding run_script
  run_script-Prints p =
      ap (λ t. run_lines h ns (split_lines (trim_space t))) p.text
      ∙ ap (run_lines h ns) (
          split_lines-script p.lines p.last p.lines_fit p.last_fits
            (lined-Framed p.leading p.framed))
      ∙ run_lines-Shows h ns p.shows

Leads-append :
    {ls : List Text} {z : Text} (ms : List Text) → Leads ls → Framed z → Leads (ls ++ z ∷ ms)
Leads-append ms no_lines f = subst (λ z. Leads (z ∷ ms)) (sym f.begins) (leads f.first_solid)
Leads-append ms (leads h) f = leads h

-- what one text prints, lines that run nothing, and what another prints
pub Prints-append :
    {a b : Text} {cs ds : List Text} (ms : List Text)
    → Prints a cs
    → All OneLine ms
    → Shows ms []
    → Prints b ds
    → Prints (a ++ (lined ms ++ b)) (cs ++ ds)
unfolding lined
Prints-append {a} {b} {cs} {ds} ms p hm sm q = record {
  lines = p.lines ++ (p.last ∷ (ms ++ q.lines));
  last = q.last;
  text = rw (p.text, q.text) (simp (lined-append, append_assoc));
  leading = Leads-append (ms ++ q.lines) p.leading p.framed;
  framed = q.framed;
  lines_fit =
      All-append OneLine p.lines _ p.lines_fit
        (p.last_fits, All-append OneLine ms q.lines hm q.lines_fit);
  last_fits = q.last_fits;
  shows =
      subst (λ ls. Shows ls (cs ++ ds)) (simp append_assoc)
        (Shows-append p.shows (Shows-append sm q.shows));
}
