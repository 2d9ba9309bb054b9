-- ===== src/Display/Frame.antt =====
-- cmd/rfmp-display/main.go: what one round of the main loop draws.
use rfmpd.Base.{Bool, List, [], if◌then◌else◌, ◌++◌, ◌∷◌}
use rfmpd.Base.Int.{pos}
use rfmpd.Display.{App, Screen, channel_list, timeline, compose, create, settings}
use rfmpd.Display.Framebuffer.{Draw, clearing, rect}
use rfmpd.Display.Screens.{rendered}
use rfmpd.Display.Layout.{
  black, green, Surroundings, render_status_bar, render_compose, render_create,
}
use rfmpd.Display.Lists.{render_channels, render_settings}
use rfmpd.Display.Timeline.{render_timeline}

-- the screen, once it has scrolled
unfoldable pub render_scrolled : Surroundings → Screen → App → List Draw
render_scrolled env (channel_list selected scroll) app = render_channels env selected scroll app
render_scrolled env (timeline scroll) app = render_timeline env scroll app
render_scrolled env (compose buf cursor) app = render_compose env buf cursor
render_scrolled env (create buf cursor) app = render_create env buf
render_scrolled env (settings s) app = render_settings env s app

-- `Render` of the current screen
unfoldable pub render : Surroundings → Screen → App → List Draw
render env s app = render_scrolled env (rendered s) app

-- a round of the main loop, with the flags of the connection and of the LED
unfoldable pub frame : Surroundings → Bool → Bool → Screen → App → List Draw
frame env connected led s app =
    clearing black
    ∷ (render_status_bar connected app
        ++ (render env s app ++ (if led then rect (pos 300) (pos 2) 6 6 green ∷ [] else [])))
