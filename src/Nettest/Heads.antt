-- ===== src/Nettest/Heads.antt =====
-- cmd/pktc/main.go and command/command.go: the lines of what `render` prints.
use pktc.Common.{
  ◌≡◌, refl, sym, ap, ltb, not, true, false, Bool-cases, inl, inr, if_intro, Text, bytes, text_eq,
  contains_byte, List, [], ◌∷◌, ◌++◌, append_assoc, append-nil, arith, join, length, All,
  if◌then◌else◌,
}
use pktc.Std.Strings.{is_blank}
use pktc.Std.Trim.{Framed, OneLine, OneLine-append, lined, lined-append}
use pktc.Ast.{Node}
use pktc.Spine.{Spine, names, spine_string}
use pktc.Command.{Command, Script}
use pktc.Cli.{rendered}
use pktc.Nettest.Script.{Shows, comment-Shows}
use pktc.Nettest.Printed.{front_lines, last_line, shell-lined}

pub join-OneLine :
    (ls : List Text) (sep : Text) → OneLine sep → All OneLine ls → OneLine (join ls sep)
unfolding join contains_byte
join-OneLine [] sep hs h = refl
join-OneLine (l ∷ []) sep hs (one, _) = one
join-OneLine (l ∷ m ∷ ls) sep hs (one, more) =
    OneLine-append l _ one (OneLine-append sep _ hs (join-OneLine (m ∷ ls) sep hs more))

-- the comments in front of a script
unfoldable pub heading_lines : Text → List Text
heading_lines heading = if not (text_eq heading []) then (bytes "# " ++ heading) ∷ [] else []

unfoldable pub title_lines : Spine → List Text → List Text
title_lines sp applied =
    (bytes "# " ++ spine_string sp) ∷ (bytes "# tiles: " ++ join applied (bytes " → ")) ∷ [] ∷ []

unfoldable pub head_lines : Text → Spine → List Text → List Text
head_lines heading sp applied =
    bytes "#!/bin/sh" ∷ (heading_lines heading ++ title_lines sp applied)

-- the comment behind one that leaves a payload
unfoldable pub payload_line : Spine → Text
payload_line payload =
    bytes "# " ++ (spine_string payload ++ bytes " below the tunnel is traffic, not configuration")

heading_lines-lined :
    (heading : Text)
    → (if not (text_eq heading []) then bytes "# " ++ (heading ++ bytes "\n") else [])
      ≡ lined (heading_lines heading)
unfolding heading_lines lined
heading_lines-lined heading = elim (Bool-cases (text_eq heading [])) [
  | inl e ↦ rw e refl
  | inr e ↦ rw e (simp (append_assoc, append-nil))
]

shebang : bytes "#!/bin/sh\n" ≡ bytes "#!/bin/sh" ++ bytes "\n"
unfolding bytes
shebang = refl

tiles_mark : bytes "\n# tiles: " ≡ bytes "\n" ++ bytes "# tiles: "
unfolding bytes
tiles_mark = refl

gap : bytes "\n\n" ≡ bytes "\n" ++ bytes "\n"
unfolding bytes
gap = refl

payload_mark : bytes "\n# " ≡ bytes "\n" ++ bytes "# "
unfolding bytes
payload_mark = refl

payload_end :
    bytes " below the tunnel is traffic, not configuration\n"
    ≡ bytes " below the tunnel is traffic, not configuration" ++ bytes "\n"
unfolding bytes
payload_end = refl

pub empty_line : OneLine []
unfolding contains_byte
empty_line = refl

some_payload : (n : Node) (payload : Spine) → ltb 0 (length (n ∷ payload)) ≡ true
some_payload n payload = ground arith

pub payload-Framed : (payload : Spine) → Framed (payload_line payload)
unfolding payload_line bytes is_blank
payload-Framed payload = record {
  first = b'#';
  behind = b' ' ∷ (spine_string payload ++ bytes " below the tunnel is traffic, not configuration");
  begins = refl;
  first_solid = refl;
  front =
      bytes "# "
      ++ (spine_string payload ++ bytes " below the tunnel is traffic, not configuratio");
  last = b'n';
  ends =
      ap (λ w. bytes "# " ++ w)
        (sym (
          append_assoc (spine_string payload)
            (bytes " below the tunnel is traffic, not configuratio") (b'n' ∷ [])));
  last_solid = refl;
}

pub payload-OneLine :
    (payload : Spine) → All OneLine (names payload) → OneLine (payload_line payload)
unfolding payload_line spine_string bytes contains_byte
payload-OneLine payload fit =
    OneLine-append (spine_string payload) _ (join-OneLine (names payload) (bytes " · ") refl fit)
      refl

pub heading-Shows :
    (heading : Text) {ls cs : List Text} → Shows ls cs → Shows (heading_lines heading ++ ls) cs
unfolding heading_lines bytes
heading-Shows heading {ls} {cs} more =
    if_intro (λ hs. Shows (hs ++ ls) cs) (not (text_eq heading [])) (λ _. comment-Shows _ more)
      (λ _. more)

module _ (heading : Text) (sp : Spine) (applied : List Text) (c : Command) (s : Script) where
  pub rendered-lined :
      rendered heading sp (record { script = c ∷ s; applied = applied; payload = [] }) false
      ≡ (lined (head_lines heading sp applied ++ front_lines c s) ++ last_line c s) ++ bytes "\n"
  unfolding rendered head_lines title_lines lined
  rendered-lined =
      rw (heading_lines-lined heading, shell-lined c s)
        (simp (shebang, tiles_mark, gap, lined-append, append_assoc, append-nil))

  pub rendered_payload-lined :
      (n : Node) (payload : Spine)
      → rendered heading sp
          (record { script = c ∷ s; applied = applied; payload = n ∷ payload })
          false
        ≡ (lined (head_lines heading sp applied ++ (front_lines c s ++ (last_line c s ∷ [] ∷ [])))
            ++ payload_line (n ∷ payload))
          ++ bytes "\n"
  unfolding rendered head_lines title_lines lined payload_line
  rendered_payload-lined n payload =
      rw (some_payload n payload, heading_lines-lined heading, shell-lined c s)
        (simp (
          shebang, tiles_mark, gap, payload_mark, payload_end, lined-append, append_assoc,
          append-nil,
        ))
