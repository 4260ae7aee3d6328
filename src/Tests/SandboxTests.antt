-- ===== src/Tests/SandboxTests.antt =====
-- Runs of the Sandbox helpers.
use dorf.Base.{◌≡◌, true, [], ◌∷◌, txt, arith}
use dorf.Sandbox.Output.{write_all, new_buffer, concat, write_all-bounded}

write_all-bounded_example :
    let b = write_all (new_buffer 4) (txt "abc" ∷ txt "def" ∷ []) in
    (b.contents ≡ txt "abcd") × (b.truncated ≡ true)
unfolding concat
write_all-bounded_example = write_all-bounded 4 (txt "abc" ∷ txt "def" ∷ []) (omega arith)
