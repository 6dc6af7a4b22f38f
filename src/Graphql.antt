-- ===== src/Graphql.antt =====
-- internal/graphql/resolver: the mutations of labels, items and highlights, SaveURL and Search.
pub mod Tables
pub mod Inputs
pub mod Resolver
pub mod Rules
pub mod Served
pub mod Own
pub mod Links
pub mod Isolated
pub mod Unique
pub mod Reads
pub mod Page
pub mod Sample
pub mod Tests
pub mod Search
pub mod Save
pub mod SearchTests
pub mod SaveTests
