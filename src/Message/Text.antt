-- ===== src/Message/Text.antt =====
-- The text of a message is its text parts, with a line break between each two.
use Prim.Native.String as Native
use package.text.Mathlib.TextLemmas.{append_assoc, append-nil, nil-append, cons-append}
use blades.Common.{String, ◌≡◌, refl, sym, ap, List, [], ◌∷◌}
use blades.Message.{
  Part, text_part, file_part, data_part, tool_part, Message, newline, write_texts, trim_newline,
  text,
}

abbrev pub texts : List Part → List String
texts [] = []
texts (text_part s ∷ parts) = s ∷ texts parts
texts (_ ∷ parts) = texts parts

abbrev pub join : List String → String
join [] = ""
join (s ∷ []) = s
join (s ∷ t ∷ rest) = Native.◌++◌ s (Native.◌++◌ newline (join (t ∷ rest)))

abbrev closed : List String → String
closed [] = ""
closed (s ∷ rest) = Native.◌++◌ s (Native.◌++◌ newline (closed rest))

write_texts-eq-closed :
    (parts : List Part) (buf : String)
    → write_texts parts buf ≡ Native.◌++◌ buf (closed (texts parts))
unfolding write_texts
write_texts-eq-closed [] buf = sym (append-nil buf)
write_texts-eq-closed (text_part s ∷ parts) buf =
    rw (write_texts-eq-closed parts (Native.◌++◌ (Native.◌++◌ buf s) newline)) (simp append_assoc)
write_texts-eq-closed (file_part f ∷ parts) buf = write_texts-eq-closed parts buf
write_texts-eq-closed (data_part d ∷ parts) buf = write_texts-eq-closed parts buf
write_texts-eq-closed (tool_part t ∷ parts) buf = write_texts-eq-closed parts buf

trim_newline-append : (s : String) → trim_newline (Native.◌++◌ s newline) ≡ s
unfolding trim_newline
trim_newline-append Native.[] = refl
trim_newline-append (Native.◌∷◌ c Native.[]) = rw cons-append refl
trim_newline-append (Native.◌∷◌ c (Native.◌∷◌ d s)) =
    rw (cons-append c (Native.◌∷◌ d s) newline, cons-append d s newline)
      (ap (λ (r : String). Native.◌∷◌ c r)
        (rw (cons-append d s newline) at (trim_newline-append (Native.◌∷◌ d s))))

closed-eq-join :
    (s : String) (rest : List String) → closed (s ∷ rest) ≡ Native.◌++◌ (join (s ∷ rest)) newline
closed-eq-join s [] = rw (append-nil newline) refl
closed-eq-join s (t ∷ rest) = rw (closed-eq-join t rest) (simp append_assoc)

trim_newline-closed : (parts : List String) → trim_newline (closed parts) ≡ join parts
unfolding trim_newline
trim_newline-closed [] = refl
trim_newline-closed (s ∷ rest) = rw (closed-eq-join s rest) (trim_newline-append (join (s ∷ rest)))

-- `Text` returns the texts of all text parts, in their order, joined by line breaks; parts of
-- another kind contribute nothing.
pub text-eq-join : (m : Message) → text m ≡ join (texts m.parts)
unfolding text
text-eq-join m =
    rw (write_texts-eq-closed m.parts "", nil-append) (trim_newline-closed (texts m.parts))
