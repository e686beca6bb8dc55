-- ===== src/Nettest/Printed.antt =====
-- internal/nettest/nettest.go on what command/command.go and cmd/pktc/main.go print.
use pktc.Common.{
  ◌≡◌, refl, sym, ap, subst, ◌∙◌, not, Bool-cases, inl, inr, if_intro, Text, bytes, text_eq,
  contains_byte, List, [], ◌∷◌, ◌++◌, append_assoc, append-nil, map, All, All-append, if◌then◌else◌,
}
use pktc.Std.Strings.{is_blank}
use pktc.Std.Trim.{Framed, OneLine, lined, lined-append}
use pktc.Command.{Command, Script, command_string, shell_lines, shell}
use pktc.Nettest.Lines.{Edged, Edged-Framed, Fits, command_string-Edged, command_string-OneLine}
use pktc.Nettest.Script.{
  Leads, no_lines, leads, Shows, over, runs, comment-Shows, empty-Shows, Prints,
}

-- a command's reason, as the lines of a script
abbrev note_lines : Command → List Text
note_lines c = if not (text_eq c.why []) then (bytes "# " ++ c.why) ∷ [] else []

-- the lines of a printed script, but for the last
pub front_lines : Command → Script → List Text
front_lines c [] = note_lines c
front_lines c (d ∷ s) = note_lines c ++ (command_string c ∷ [] ∷ front_lines d s)

unfoldable pub last_line : Command → Script → Text
last_line c [] = command_string c
last_line c (d ∷ s) = last_line d s

shell_lines-lined :
    (c : Command) → shell_lines c ≡ lined (note_lines c) ++ (command_string c ++ bytes "\n")
unfolding shell_lines lined bytes
shell_lines-lined c = elim (Bool-cases (text_eq c.why [])) [
  | inl e ↦ rw e refl
  | inr e ↦ rw e (simp append_assoc)
]

pub shell-lined :
    (c : Command) (s : Script)
    → shell (c ∷ s) ≡ (lined (front_lines c s) ++ last_line c s) ++ bytes "\n"
unfolding shell front_lines last_line lined
shell-lined c [] =
    shell_lines-lined c ∙ sym (append_assoc (lined (note_lines c)) (command_string c) (bytes "\n"))
shell-lined c (d ∷ s) =
    ap (λ w. shell_lines c ++ (bytes "\n" ++ w)) (shell-lined d s)
    ∙ ap (λ w. w ++ (bytes "\n" ++ ((lined (front_lines d s) ++ last_line d s) ++ bytes "\n")))
        (shell_lines-lined c)
    ∙ simp (lined-append, append_assoc)

pub last-Fits :
    (c : Command) (s : Script) → All Fits (c ∷ s) → Edged (last_line c s) × OneLine (last_line c s)
unfolding last_line
last-Fits c [] (f, _) = (command_string-Edged f, command_string-OneLine f)
last-Fits c (d ∷ s) (_, more) = last-Fits d s more

note_lines-OneLine : (c : Command) → Fits c → All OneLine (note_lines c)
unfolding bytes contains_byte
note_lines-OneLine c f =
    if_intro (All OneLine) (not (text_eq c.why [])) (λ _. (f.why_fits, tt)) (λ _. tt)

note_lines-Shows : (c : Command) {ls cs : List Text} → Shows ls cs → Shows (note_lines c ++ ls) cs
unfolding bytes
note_lines-Shows c {ls} {cs} more =
    if_intro (λ ns. Shows (ns ++ ls) cs) (not (text_eq c.why []))
      (λ _. comment-Shows (b' ' ∷ c.why) more) (λ _. more)

pub front-OneLine : (c : Command) (s : Script) → All Fits (c ∷ s) → All OneLine (front_lines c s)
unfolding front_lines contains_byte
front-OneLine c [] (f, _) = note_lines-OneLine c f
front-OneLine c (d ∷ s) (f, more) =
    All-append OneLine (note_lines c) _ (note_lines-OneLine c f)
      (command_string-OneLine f, (refl, front-OneLine d s more))

pub front-Shows :
    (c : Command) (s : Script) {ms ds : List Text}
    → All Fits (c ∷ s)
    → Shows ms ds
    → Shows (front_lines c s ++ (last_line c s ∷ ms)) (map command_string (c ∷ s) ++ ds)
unfolding front_lines last_line
front-Shows c [] (f, _) more = note_lines-Shows c (runs (command_string-Edged f) more)
front-Shows c (d ∷ s) {ms} {ds} (f, rest) more =
    subst (λ ls. Shows ls (map command_string (c ∷ d ∷ s) ++ ds))
      (sym (append_assoc (note_lines c) _ _))
      (note_lines-Shows c (runs (command_string-Edged f) (empty-Shows (front-Shows d s rest more))))

pub Framed-Leads : {l : Text} (ls : List Text) → Framed l → Leads (l ∷ ls)
Framed-Leads ls f = subst (λ m. Leads (m ∷ ls)) (sym f.begins) (leads f.first_solid)

note_lines-Leads : (c : Command) {ls : List Text} → Leads ls → Leads (note_lines c ++ ls)
unfolding bytes is_blank
note_lines-Leads c {ls} more =
    if_intro (λ ns. Leads (ns ++ ls)) (not (text_eq c.why [])) (λ _. leads refl) (λ _. more)

pub front-Leads : (c : Command) (s : Script) → All Fits (c ∷ s) → Leads (front_lines c s)
unfolding front_lines
front-Leads c [] f = subst Leads (append-nil (note_lines c)) (note_lines-Leads c no_lines)
front-Leads c (d ∷ s) (f, _) =
    note_lines-Leads c (Framed-Leads _ (Edged-Framed (command_string-Edged f)))

-- A script with comments prints its commands.
pub shell-Prints :
    (c : Command) (s : Script)
    → All Fits (c ∷ s)
    → Prints (shell (c ∷ s)) (map command_string (c ∷ s))
shell-Prints c s fit =
    let (edged, one) = last-Fits c s fit in
    record {
      lines = front_lines c s;
      last = last_line c s;
      text = shell-lined c s;
      leading = front-Leads c s fit;
      framed = Edged-Framed edged;
      lines_fit = front-OneLine c s fit;
      last_fits = one;
      shows =
          subst (Shows (front_lines c s ++ last_line c s ∷ []))
            (append-nil (map command_string (c ∷ s))) (front-Shows c s fit over);
    }
