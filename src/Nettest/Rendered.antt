-- ===== src/Nettest/Rendered.antt =====
-- internal/nettest/nettest.go on what `render` of cmd/pktc/main.go prints.
use pktc.Common.{
  refl, sym, ap, subst, not, Bool, true, false, if_intro, Text, bytes, text_eq, contains_byte, List,
  [], ◌∷◌, ◌++◌, append_assoc, append-nil, map, All, All-append,
}
use pktc.Std.Strings.{is_blank}
use pktc.Std.Trim.{OneLine}
use pktc.Spine.{Spine, names, spine_string}
use pktc.Command.{Command, Script, command_string}
use pktc.Cli.{rendered}
use pktc.Nettest.Lines.{Edged-Framed, Fits}
use pktc.Nettest.Script.{Leads, leads, Shows, over, comment-Shows, empty-Shows, Prints}
use pktc.Nettest.Printed.{front_lines, last_line, last-Fits, front-OneLine, front-Shows}
use pktc.Nettest.Heads.{
  join-OneLine, heading_lines, title_lines, head_lines, payload_line, payload-Framed,
  payload-OneLine, heading-Shows, empty_line, rendered-lined, rendered_payload-lined,
}
use pktc.Nettest.Quiet.{plain_front, plain-lined, plain-OneLine, plain-Shows, plain-Leads}

module _ (heading : Text) (sp : Spine) (applied : List Text) (c : Command) (s : Script) where
  module _ (fit : All Fits (c ∷ s)) (heading_fits : OneLine heading)
      (names_fit : All OneLine (names sp)) (applied_fit : All OneLine applied) where
    head-OneLine : All OneLine (head_lines heading sp applied)
    unfolding head_lines title_lines heading_lines spine_string bytes contains_byte
    head-OneLine = (
      refl,
      All-append OneLine (heading_lines heading) _
          (if_intro (All OneLine) (not (text_eq heading [])) (λ _. (heading_fits, tt)) (λ _. tt))
          (
            join-OneLine (names sp) (bytes " · ") refl names_fit,
            (join-OneLine applied (bytes " → ") refl applied_fit, (refl, tt)),
          ),
    )

    head-Shows : {ls cs : List Text} → Shows ls cs → Shows (head_lines heading sp applied ++ ls) cs
    unfolding head_lines title_lines bytes
    head-Shows {ls} {cs} more = comment-Shows _ (
        subst (λ ms. Shows ms cs)
          (sym (append_assoc (heading_lines heading) (title_lines sp applied) ls))
          (heading-Shows heading (comment-Shows _ (comment-Shows _ (empty-Shows more)))))

    head-Leads : (ls : List Text) → Leads (head_lines heading sp applied ++ ls)
    unfolding head_lines bytes is_blank
    head-Leads ls = leads refl

    -- without a payload
    shown-Shows :
        Shows
          ((head_lines heading sp applied ++ front_lines c s) ++ last_line c s ∷ [])
          (map command_string (c ∷ s))
    shown-Shows =
        subst (λ ms. Shows ms (map command_string (c ∷ s)))
          (sym
            (append_assoc (head_lines heading sp applied) (front_lines c s) (last_line c s ∷ [])))
          (head-Shows (
            subst (Shows (front_lines c s ++ last_line c s ∷ []))
              (append-nil (map command_string (c ∷ s))) (front-Shows c s fit over)))

    -- with one
    payload-Shows :
        (payload : Spine)
        → Shows
            ((head_lines heading sp applied ++ (front_lines c s ++ (last_line c s ∷ [] ∷ [])))
              ++ payload_line payload ∷ [])
            (map command_string (c ∷ s))
    unfolding payload_line bytes
    payload-Shows payload =
        subst (λ ms. Shows ms (map command_string (c ∷ s)))
          (sym (append_assoc (head_lines heading sp applied) _ _))
          (head-Shows (
            subst (λ ms. Shows ms (map command_string (c ∷ s)))
              (sym (append_assoc (front_lines c s) _ _))
              (subst (Shows (front_lines c s ++ last_line c s ∷ [] ∷ payload_line payload ∷ []))
                (append-nil (map command_string (c ∷ s)))
                (front-Shows c s fit (empty-Shows (comment-Shows _ over))))))

    shown-Prints :
        (payload : Spine)
        → All OneLine (names payload)
        → Prints
            (rendered heading sp
              (record { script = c ∷ s; applied = applied; payload = payload })
              false)
            (map command_string (c ∷ s))
    shown-Prints [] payload_fits =
        let (edged, one) = last-Fits c s fit in
        record {
          lines = head_lines heading sp applied ++ front_lines c s;
          last = last_line c s;
          text = rendered-lined heading sp applied c s;
          leading = head-Leads (front_lines c s);
          framed = Edged-Framed edged;
          lines_fit =
              All-append OneLine (head_lines heading sp applied) _ head-OneLine
                (front-OneLine c s fit);
          last_fits = one;
          shows = shown-Shows;
        }
    shown-Prints (n ∷ payload) payload_fits =
        let (_, one) = last-Fits c s fit in
        record {
          lines = head_lines heading sp applied ++ (front_lines c s ++ (last_line c s ∷ [] ∷ []));
          last = payload_line (n ∷ payload);
          text = rendered_payload-lined heading sp applied c s n payload;
          leading = head-Leads _;
          framed = payload-Framed (n ∷ payload);
          lines_fit = All-append OneLine (head_lines heading sp applied) _ head-OneLine (
              All-append OneLine (front_lines c s) _ (front-OneLine c s fit)
                (one, (empty_line, tt)));
          last_fits = payload-OneLine (n ∷ payload) payload_fits;
          shows = payload-Shows (n ∷ payload);
        }

    quiet-Prints :
        (payload : Spine)
        → Prints
            (rendered heading sp
              (record { script = c ∷ s; applied = applied; payload = payload })
              true)
            (map command_string (c ∷ s))
    unfolding rendered
    quiet-Prints payload =
        let (edged, one) = last-Fits c s fit in
        record {
          lines = plain_front c s;
          last = last_line c s;
          text = ap (λ w. w ++ bytes "\n") (plain-lined c s);
          leading = plain-Leads c s fit;
          framed = Edged-Framed edged;
          lines_fit = plain-OneLine c s fit;
          last_fits = one;
          shows = plain-Shows c s fit;
        }

-- What is printed for one rule, with or without `-quiet`, prints the commands of its script.
pub rendered-Prints :
    (heading : Text) (sp : Spine) (applied : List Text) (c : Command) (s : Script) (payload : Spine)
    (quiet : Bool)
    → All Fits (c ∷ s)
    → OneLine heading
    → All OneLine (names sp)
    → All OneLine applied
    → All OneLine (names payload)
    → Prints
        (rendered heading sp
          (record { script = c ∷ s; applied = applied; payload = payload })
          quiet)
        (map command_string (c ∷ s))
rendered-Prints heading sp applied c s payload true fit hf nf af pf =
    quiet-Prints heading sp applied c s fit hf nf af payload
rendered-Prints heading sp applied c s payload false fit hf nf af pf =
    shown-Prints heading sp applied c s fit hf nf af payload pf
