-- ===== src/Graph.antt =====
-- graph/graph.go: building a graph, and the four checks that `Compile` runs on it.
-- A name is a text, a Go map is an association list in the order in which a `range` visits it, and
-- a nil condition or option is `none`. The context argument is left out.
mod Types
mod Build
mod Edges
pub mod Check
pub mod Cycle
pub mod Reach
pub mod Compile
pub mod Task
pub mod Tests
mod Witness
pub use Types.*
pub use Edges.*
unfoldable pub use Build.*
unfoldable pub use Check.*
unfoldable pub use Cycle.*
unfoldable pub use Reach.*
unfoldable pub use Compile.*
