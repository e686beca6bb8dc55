-- ===== src/Nettest/Banner.antt =====
-- internal/nettest/nettest.go on the notes that stand between the two ends of `pktc mirror`.
use pktc.Common.{
  ℕ, ◌≡◌, refl, sym, subst, ltb, Bool, Text, bytes, contains_byte, List, [], ◌∷◌, ◌++◌,
  append_assoc, append-nil, map, length, All, All-append, if_intro,
}
use pktc.Std.Strings.{is_blank}
use pktc.Std.Trim.{OneLine, OneLine-append, lined, lined-append}
use pktc.Mirror.{Note, Mirrored}
use pktc.Mirror.Notes.{note_string}
use pktc.Mirror.Lines.{NoteFits, note_string-OneLine}
use pktc.Cli.Mirror.{dashes, rule_line, note_lines, banner, ending}
use pktc.Nettest.Script.{
  Shows, over, no_lines, Shows-append, comment-Shows, empty-Shows, Prints, Prints-append,
}

rule : Text
rule = bytes "# " ++ dashes 68

note_texts : (ℕ → Bool) → Text → List Note → List Text
note_texts printable mark ns = map (λ n. mark ++ note_string printable n) ns

module _ (printable : ℕ → Bool) where
  note_lines-lined :
      (mark : Text) (ns : List Note)
      → note_lines printable mark ns ≡ lined (note_texts printable mark ns)
  unfolding note_lines note_texts lined
  note_lines-lined mark [] = refl
  note_lines-lined mark (n ∷ ns) = rw (note_lines-lined mark ns) (simp append_assoc)

  note_texts-OneLine :
      (mark : Text) (ns : List Note)
      → OneLine mark
      → All NoteFits ns
      → All OneLine (note_texts printable mark ns)
  unfolding note_texts
  note_texts-OneLine mark [] hm h = tt
  note_texts-OneLine mark (n ∷ ns) hm (h, more) = (
    OneLine-append mark (note_string printable n) hm (note_string-OneLine printable n h),
    note_texts-OneLine mark ns hm more,
  )

  note_texts-Shows :
      (mark : Text) (ns : List Note) → Shows (note_texts printable (b'#' ∷ mark) ns) []
  unfolding note_texts
  note_texts-Shows mark [] = over
  note_texts-Shows mark (n ∷ ns) =
      comment-Shows (mark ++ note_string printable n) (note_texts-Shows mark ns)

  pub banner_lines : Mirrored → List Text
  banner_lines m =
      []
      ∷ rule
      ∷ (note_texts printable (bytes "# derived: ") m.supplied
          ++ (note_texts printable (bytes "# NOT DERIVED: ") m.missing ++ (rule ∷ [] ∷ [])))

  pub banner-lined : (m : Mirrored) → banner printable m ≡ lined (banner_lines m)
  unfolding banner banner_lines rule_line rule lined
  banner-lined m =
      rw
        (
          note_lines-lined (bytes "# derived: ") m.supplied,
          note_lines-lined (bytes "# NOT DERIVED: ") m.missing,
        )
        (simp (lined-append, append_assoc, append-nil))

  pub banner-OneLine :
      (m : Mirrored)
      → All NoteFits m.supplied
      → All NoteFits m.missing
      → All OneLine (banner_lines m)
  unfolding banner_lines rule bytes contains_byte dashes
  banner-OneLine m hs hm = (
    refl,
    (
      refl,
      All-append OneLine _ _ (note_texts-OneLine (bytes "# derived: ") m.supplied refl hs) (
          All-append OneLine _ _ (note_texts-OneLine (bytes "# NOT DERIVED: ") m.missing refl hm)
            (refl, (refl, tt))),
    ),
  )

  pub banner-Shows : (m : Mirrored) → Shows (banner_lines m) []
  unfolding banner_lines rule bytes
  banner-Shows m = empty-Shows (
      comment-Shows _ (
        Shows-append (note_texts-Shows _ m.supplied)
          (Shows-append (note_texts-Shows _ m.missing) (comment-Shows _ (empty-Shows over)))))

last_note : Text
last_note = bytes "# the far end is incomplete; supply -peer-inner to finish it"

last_note-Prints : Prints (last_note ++ bytes "\n") []
unfolding last_note lined bytes is_blank contains_byte
last_note-Prints = record {
  lines = [];
  last = last_note;
  text = refl;
  leading = no_lines;
  framed = record {
    first = b'#';
    behind = bytes " the far end is incomplete; supply -peer-inner to finish it";
    begins = refl;
    first_solid = refl;
    front = bytes "# the far end is incomplete; supply -peer-inner to finish i";
    last = b't';
    ends = refl;
    last_solid = refl;
  };
  lines_fit = tt;
  last_fits = refl;
  shows = comment-Shows _ over;
}

empty_line : All OneLine ([] ∷ [])
unfolding contains_byte
empty_line = (refl, tt)

pub ended-Prints :
    {out : Text} {cs : List Text} (missing : List Note)
    → Prints out cs
    → Prints (out ++ ending missing) cs
unfolding ending last_note lined bytes
ended-Prints {out} {cs} missing p =
    if_intro (λ t. Prints (out ++ t) cs) (ltb 0 (length missing))
      (λ _.
        subst
          (Prints (out ++ bytes "\n# the far end is incomplete; supply -peer-inner to finish it\n"))
          (append-nil cs)
          (Prints-append ([] ∷ []) p empty_line (empty-Shows over) last_note-Prints))
      (λ _. subst (λ t. Prints t cs) (sym (append-nil out)) p)
