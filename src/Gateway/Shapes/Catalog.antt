-- ===== src/Gateway/Shapes/Catalog.antt =====
-- The catalog of gateway/shapes.go: the patterns that PLACE_SHAPE can place.
use distributed_game_of_life.Prelude.{ℕ, List, [], ◌∷◌}
use distributed_game_of_life.Prelude.Int.{pos}
use distributed_game_of_life.Gateway.Shapes.Defs.{CellOffset, ShapeDef}
use Prim.Native.String.{String}

abbrev off : ℕ → ℕ → CellOffset
off x y = record { x = pos x; y = pos y }

unfoldable pub catalog : List (String × ShapeDef)
catalog =
    ("cell", record { label = "Cell"; category = "Still Life"; cells = off 0 0 ∷ [] })
    ∷ (
      "block",
      record {
        label = "Block";
        category = "Still Life";
        cells = off 0 0 ∷ off 1 0 ∷ off 0 1 ∷ off 1 1 ∷ [];
      },
    )
    ∷ (
      "beehive",
      record {
        label = "Beehive";
        category = "Still Life";
        cells = off 1 0 ∷ off 2 0 ∷ off 0 1 ∷ off 3 1 ∷ off 1 2 ∷ off 2 2 ∷ [];
      },
    )
    ∷ (
      "blinker",
      record {
        label = "Blinker";
        category = "Oscillator";
        cells = off 0 0 ∷ off 1 0 ∷ off 2 0 ∷ [];
      },
    )
    ∷ (
      "toad",
      record {
        label = "Toad (p2)";
        category = "Oscillator";
        cells = off 1 0 ∷ off 2 0 ∷ off 3 0 ∷ off 0 1 ∷ off 1 1 ∷ off 2 1 ∷ [];
      },
    )
    ∷ (
      "beacon",
      record {
        label = "Beacon (p2)";
        category = "Oscillator";
        cells = off 0 0 ∷ off 1 0 ∷ off 0 1 ∷ off 3 2 ∷ off 2 3 ∷ off 3 3 ∷ [];
      },
    )
    ∷ (
      "pulsar",
      record {
        label = "Pulsar (p3)";
        category = "Oscillator";
        cells =
            off 2 0
            ∷ off 3 0
            ∷ off 4 0
            ∷ off 8 0
            ∷ off 9 0
            ∷ off 10 0
            ∷ off 0 2
            ∷ off 5 2
            ∷ off 7 2
            ∷ off 12 2
            ∷ off 0 3
            ∷ off 5 3
            ∷ off 7 3
            ∷ off 12 3
            ∷ off 0 4
            ∷ off 5 4
            ∷ off 7 4
            ∷ off 12 4
            ∷ off 2 5
            ∷ off 3 5
            ∷ off 4 5
            ∷ off 8 5
            ∷ off 9 5
            ∷ off 10 5
            ∷ off 2 7
            ∷ off 3 7
            ∷ off 4 7
            ∷ off 8 7
            ∷ off 9 7
            ∷ off 10 7
            ∷ off 0 8
            ∷ off 5 8
            ∷ off 7 8
            ∷ off 12 8
            ∷ off 0 9
            ∷ off 5 9
            ∷ off 7 9
            ∷ off 12 9
            ∷ off 0 10
            ∷ off 5 10
            ∷ off 7 10
            ∷ off 12 10
            ∷ off 2 12
            ∷ off 3 12
            ∷ off 4 12
            ∷ off 8 12
            ∷ off 9 12
            ∷ off 10 12
            ∷ [];
      },
    )
    ∷ (
      "glider",
      record {
        label = "Glider";
        category = "Spaceship";
        cells = off 1 0 ∷ off 2 1 ∷ off 0 2 ∷ off 1 2 ∷ off 2 2 ∷ [];
      },
    )
    ∷ (
      "lwss",
      record {
        label = "LWSS";
        category = "Spaceship";
        cells =
            off 1 0
            ∷ off 4 0
            ∷ off 0 1
            ∷ off 0 2
            ∷ off 4 2
            ∷ off 0 3
            ∷ off 1 3
            ∷ off 2 3
            ∷ off 3 3
            ∷ [];
      },
    )
    ∷ (
      "r-pentomino",
      record {
        label = "R-Pentomino";
        category = "Methuselah";
        cells = off 1 0 ∷ off 2 0 ∷ off 0 1 ∷ off 1 1 ∷ off 1 2 ∷ [];
      },
    )
    ∷ (
      "acorn",
      record {
        label = "Acorn";
        category = "Methuselah";
        cells = off 1 0 ∷ off 3 1 ∷ off 0 2 ∷ off 1 2 ∷ off 4 2 ∷ off 5 2 ∷ off 6 2 ∷ [];
      },
    )
    ∷ (
      "diehard",
      record {
        label = "Diehard";
        category = "Methuselah";
        cells = off 6 0 ∷ off 0 1 ∷ off 1 1 ∷ off 1 2 ∷ off 5 2 ∷ off 6 2 ∷ off 7 2 ∷ [];
      },
    )
    ∷ (
      "gosper-gun",
      record {
        label = "Gosper Gun";
        category = "Gun";
        cells =
            off 0 4
            ∷ off 1 4
            ∷ off 0 5
            ∷ off 1 5
            ∷ off 10 4
            ∷ off 10 5
            ∷ off 10 6
            ∷ off 11 3
            ∷ off 11 7
            ∷ off 12 2
            ∷ off 12 8
            ∷ off 13 2
            ∷ off 13 8
            ∷ off 14 5
            ∷ off 15 3
            ∷ off 15 7
            ∷ off 16 4
            ∷ off 16 5
            ∷ off 16 6
            ∷ off 17 5
            ∷ off 20 2
            ∷ off 21 2
            ∷ off 20 3
            ∷ off 21 3
            ∷ off 20 4
            ∷ off 21 4
            ∷ off 22 1
            ∷ off 22 5
            ∷ off 24 0
            ∷ off 24 1
            ∷ off 24 5
            ∷ off 24 6
            ∷ off 34 2
            ∷ off 34 3
            ∷ off 35 2
            ∷ off 35 3
            ∷ [];
      },
    )
    ∷ []
