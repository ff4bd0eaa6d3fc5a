-- ===== src/Base.antt =====
-- What the components share: the library's names, passed on, Boolean tests, lists, texts, sets and
-- maps of texts, JavaScript values, and sorting.
pub mod Tests
pub mod Lists
pub mod Texts
pub mod Sets
pub mod Maps
pub mod Values
pub mod Sort
pub mod Units
pub mod Occurrences
pub use Tests.*
pub use Lists.*
pub use Texts.{trim_idem}
pub use Units.{text_order}
unfoldable pub use Texts.{trim, is_empty, is_space}
pub use Sets.{text_symm, text_ne, contains-append}
unfoldable pub use Sets.{contains, Distinct, set_add, set_of}
unfoldable pub use Maps.{keys, lookup, insert}
unfoldable pub use Sort.{sort, not_after, IsSorted}
pub use Sort.{IsConsistent, sort-IsSorted}
