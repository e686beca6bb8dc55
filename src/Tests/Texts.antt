-- ===== src/Tests/Texts.antt =====
-- The source text and the emitted text: packages sexp and command.
use pktc.Common.{◌≡◌, refl, bytes, text_eq, has_prefix, contains_text, All, some, [], ◌∷◌, map}
use pktc.Diag.{Pos, ok}
use pktc.Sexp.Kind.{k_symbol, k_keyword, k_string, k_number, k_star}
use pktc.Sexp.Value.{Values, nil, cons, atom, list}
use pktc.Sexp.Reader.{is_delim, is_number, classify, read, start}
use pktc.Sexp.Print.{
  print_items, placed_items, IsWord, a_list, a_string, a_word, EachPrintable, no_items, items,
}
use pktc.Sexp.RoundTrip.{to_list, read-print_items}
use pktc.Command.{Command, command, safe, command_string}
use pktc.Command.Shell.{shell_words, IsLiteral, shell_words-command_string}

classify_words :
    map classify (
      bytes "ipv4"
      ∷ bytes ":vni"
      ∷ bytes "*"
      ∷ bytes "100"
      ∷ bytes "0x1001"
      ∷ bytes "-1"
      ∷ bytes "10.0.0.1"
      ∷ bytes "0x"
      ∷ [])
    ≡ k_symbol ∷ k_keyword ∷ k_star ∷ k_number ∷ k_number ∷ k_number ∷ k_symbol ∷ k_symbol ∷ []
unfolding classify is_number bytes text_eq has_prefix
classify_words = refl

abbrev here : Pos
here = record { file = bytes "t.lisp"; line = 1; col = 1 }

-- `(udp :mode "a\"b")`
abbrev one_form : Values
one_form =
    cons
      (list
        (cons (atom k_symbol (bytes "udp") here) (
          cons (atom k_keyword (bytes ":mode") here)
            (cons (atom k_string (bytes "a\"b") here) nil)))
        here)
      nil

udp-IsWord : IsWord (bytes "udp")
unfolding bytes is_delim
udp-IsWord = (cc, cc, (refl, (refl, (refl, tt))))

mode-IsWord : IsWord (bytes ":mode")
unfolding bytes is_delim
mode-IsWord = (cc, cc, (refl, (refl, (refl, (refl, (refl, tt))))))

one_form-EachPrintable : EachPrintable one_form
unfolding classify is_number bytes text_eq has_prefix
one_form-EachPrintable =
    items
      (a_list (
        items (a_word udp-IsWord refl refl)
          (items (a_word mode-IsWord refl refl) (items a_string no_items))))
      no_items

read-print_items_example :
    read (bytes "t.lisp") (print_items one_form)
    ≡ ok (to_list (placed_items one_form (start (bytes "t.lisp") []).at))
read-print_items_example = read-print_items (bytes "t.lisp") one_form one_form-EachPrintable

-- an argument with a quote, a blank and a semicolon
abbrev odd : Command
odd = command (bytes "why") (bytes "echo" ∷ bytes "it's; a" ∷ [] ∷ [])

odd-IsLiteral : All IsLiteral odd.argv
unfolding bytes contains_text has_prefix safe
odd-IsLiteral = (refl, (refl, (refl, tt)))

shell_words-command_string_example : shell_words (command_string odd) ≡ some odd.argv
shell_words-command_string_example = shell_words-command_string odd odd-IsLiteral
