-- ===== src/Parsections/Tests.antt =====
-- `parsections` of two functions, the second of which throws the exception 7.
use parallel_operations_tool.Prelude.{ℕ, none, some, [], ◌∷◌, update}
use parallel_operations_tool.Parsections.{absent, submitted, running, ending, ended, threw, System}

abbrev after : System ℕ
after = record {
  sections =
      update
        (update
          (update
            (update
              (update (update (update (update (λ i. absent) 0 submitted) 1 submitted) 1 running) 1
                (ending (some 7)))
              1 (ended (some 7)))
            0 running)
          0 (ending none))
        0 (ended none);
  main = threw 1 7;
  invoked = 0 ∷ 1 ∷ [];
}
