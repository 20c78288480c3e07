-- ===== src/GoStd.antt =====
-- What the program uses of Go's standard library: strings, strconv, base64, html, net, net/url and path.
-- Texts are byte lists. The children state the functions and the laws that the program relies on.
pub mod Strings
pub mod Decimal
pub mod Base64
pub mod Time
pub mod Html
pub mod Net
pub mod Urls
pub mod Paths
pub mod Scan
