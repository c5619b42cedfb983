-- ===== src/I18n.antt =====
-- pkg/common/i18n.go and i18n_helper.go: message files, the global manager, and the locale of a
-- request.
pub mod Messages
pub mod Manager
pub mod Locale
pub mod Lookup
mod Tests
